-- ===== src/Attention/Sweep/Collect.antt =====
-- packages/core/src/attention/service.ts: the sweep's loop of deletes, and one of its chunks.
use jehad_os.Prelude.{
  ◌≤◌, ℕ, zero, suc, ◌+◌, ◌<◌, ◌≡◌, refl, sym, ap, ◌∙◌, Bool, true, false, not, Option, some, List,
  All, [], ◌∷◌, filter, length, ltb, ltb→lt, ltb-false→le, arith, and_then,
}
use jehad_os.Attention.{AttentionItemRow, AttentionDb}
use jehad_os.Attention.Table.{AreDistinct, filter-true, filter-false}
use jehad_os.Attention.Sweep.{delete_chunk, chunk_size, collect}

module _ (p : AttentionItemRow → Bool) where
  abbrev stays_ : List AttentionItemRow → List AttentionItemRow
  stays_ rows = filter (λ row. not (p row)) rows

  -- What a chunk leaves: rows deleted and rows left are all the rows, and a chunk that was not
  -- full has left no match.
  record Chunk (limit : ℕ) (rows : List AttentionItemRow) (c : ℕ × List AttentionItemRow)
      : Type 0 where
    total : c.0 + length c.1 ≡ length rows
    matched : c.0 + length (filter p c.1) ≡ length (filter p rows)
    rest : stays_ c.1 ≡ stays_ rows
    last : c.0 < limit → (c.1 ≡ stays_ rows) × (c.0 ≡ length (filter p rows))

  cons-Chunk :
      (limit : ℕ) (row : AttentionItemRow) (rows : List AttentionItemRow)
      (hit miss : ℕ × List AttentionItemRow) (b : Bool)
      → p row ≡ b
      → Chunk limit rows hit
      → Chunk (suc limit) rows miss
      → Chunk
          (suc limit)
          (row ∷ rows)
          (elim b [ true ↦ (suc hit.0, hit.1) | false ↦ (miss.0, row ∷ miss.1) ])
  cons-Chunk limit row rows hit miss true t h m =
      let count = ap length (filter-true p row rows t) in
      let rest = filter-false (λ r. not (p r)) row rows (ap not t) in
      record {
        total = omega (arith, h.total);
        matched = omega (arith, h.matched, count);
        rest = h.rest ∙ sym rest;
        last = λ l. let k = h.last (omega arith) in (k.0 ∙ sym rest, ap suc k.1 ∙ sym count);
      }
  cons-Chunk limit row rows hit miss false f h m =
      let count = ap length (filter-false p row rows f) in
      let rest = filter-true (λ r. not (p r)) row rows (ap not f) in
      record {
        total = omega (arith, m.total);
        matched =
            ap (λ n. miss.0 + n) (ap length (filter-false p row miss.1 f)) ∙ m.matched ∙ sym count;
        rest =
            filter-true (λ r. not (p r)) row miss.1 (ap not f)
            ∙ ap (λ xs. row ∷ xs) m.rest
            ∙ sym rest;
        last = λ l. let k = m.last l in (ap (λ xs. row ∷ xs) k.0 ∙ sym rest, k.1 ∙ sym count);
      }

  delete_chunk-Chunk :
      (limit : ℕ) (rows : List AttentionItemRow) → Chunk limit rows (delete_chunk p limit rows)
  unfolding delete_chunk
  delete_chunk-Chunk zero rows = record {
    total = omega arith;
    matched = omega arith;
    rest = refl;
    last = λ l. absurd (omega arith);
  }
  delete_chunk-Chunk (suc limit) [] = record {
    total = refl;
    matched = refl;
    rest = refl;
    last = λ l. (refl, refl);
  }
  delete_chunk-Chunk (suc limit) (row ∷ rows) =
      cons-Chunk limit row rows (delete_chunk p limit rows) (delete_chunk p (suc limit) rows)
        (p row) refl (delete_chunk-Chunk limit rows) (delete_chunk-Chunk (suc limit) rows)

  elim-eq :
      {A : Type 0} (b : Bool) (yes_ no_ goal : A)
      → (b ≡ true → yes_ ≡ goal)
      → (b ≡ false → no_ ≡ goal)
      → (elim b [ true ↦ yes_ | false ↦ no_ ]) ≡ goal
  elim-eq true yes_ no_ goal h k = h refl
  elim-eq false yes_ no_ goal h k = k refl

  -- What the loop leaves of a database.
  abbrev remains : AttentionDb → ℕ × AttentionDb
  remains db = (length (filter p db.items), record db { items = stays_ db.items })

  -- One round, and what the later rounds answer.
  round-deletes :
      (limit : ℕ) (db : AttentionDb) (c : ℕ × List AttentionItemRow)
      (more : Option (ℕ × AttentionDb))
      → Chunk limit db.items c
      → (limit ≤ c.0 → more ≡ some (remains (record db { items = c.1 })))
      → (elim (ltb c.0 limit) [
        | true ↦ some (c.0, record db { items = c.1 })
        | false ↦ and_then more (λ r. some (c.0 + r.0, r.1))
      ])
        ≡ some (remains db)
  round-deletes limit db c more k rest =
      let set_items : List AttentionItemRow → AttentionDb = λ xs. record db { items = xs } in
      elim-eq (ltb c.0 limit) (some (c.0, set_items c.1))
        (and_then more (λ r. some (c.0 + r.0, r.1))) (some (remains db))
        (λ t.
          let last = k.last (ltb→lt c.0 limit t) in
          ap (λ n. some (n, set_items c.1)) last.1
          ∙ ap (λ xs. some (length (filter p db.items), set_items xs)) last.0)
        (λ f.
          ap (λ o. and_then o (λ r. some (c.0 + r.0, r.1))) (rest (ltb-false→le c.0 limit f))
          ∙ ap (λ n. some (n, set_items (stays_ c.1))) k.matched
          ∙ ap (λ xs. some (length (filter p db.items), set_items xs)) k.rest)

  -- With nobody else writing meanwhile, the loop deletes every match and nothing else, in at most
  -- one round more than there are rows.
  pub collect-deletes :
      (rounds moment : ℕ) (db : AttentionDb)
      → length db.items < rounds
      → collect (λ n d. d) p rounds moment db
        ≡ some
            (length (filter p db.items), record db { items = filter (λ row. not (p row)) db.items })
  unfolding collect
  collect-deletes zero moment db h = absurd (omega arith)
  collect-deletes (suc rounds) moment db h =
      let c = delete_chunk p chunk_size db.items in
      let left : AttentionDb = record db { items = c.1 } in
      let k = delete_chunk-Chunk chunk_size db.items in
      round-deletes chunk_size db c (collect (λ n d. d) p rounds (suc moment) left) k
        (λ full. collect-deletes rounds (suc moment) left (fewer k.total full h))
    where
      fewer : {a b n r : ℕ} → a + b ≡ n → 500 ≤ a → n < suc r → b < r
      fewer e full h = omega arith

  -- A chunk that is deleted leaves rows of the table, in their order.
  module _ (P : List AttentionItemRow → Type 0) where
    picked :
        (b : Bool) (row : AttentionItemRow) (hit miss : ℕ × List AttentionItemRow)
        → P hit.1
        → P (row ∷ miss.1)
        → let left : ℕ × List AttentionItemRow = elim b [
          | true ↦ (suc hit.0, hit.1)
          | false ↦ (miss.0, row ∷ miss.1)
        ] in
          P left.1
    picked true row hit miss h k = h
    picked false row hit miss h k = k

  pub delete_chunk-All :
      (P : AttentionItemRow → Type 0) (limit : ℕ) (rows : List AttentionItemRow)
      → All P rows
      → All P (delete_chunk p limit rows).1
  unfolding delete_chunk
  delete_chunk-All P zero rows h = h
  delete_chunk-All P (suc limit) [] h = tt
  delete_chunk-All P (suc limit) (row ∷ rows) h =
      picked (All P) (p row) row (delete_chunk p limit rows) (delete_chunk p (suc limit) rows)
        (delete_chunk-All P limit rows h.1) (h.0, delete_chunk-All P (suc limit) rows h.1)

  pub delete_chunk-AreDistinct :
      (related : AttentionItemRow → AttentionItemRow → Bool) (limit : ℕ)
      (rows : List AttentionItemRow)
      → AreDistinct related rows
      → AreDistinct related (delete_chunk p limit rows).1
  unfolding delete_chunk
  delete_chunk-AreDistinct related zero rows h = h
  delete_chunk-AreDistinct related (suc limit) [] h = tt
  delete_chunk-AreDistinct related (suc limit) (row ∷ rows) h =
      picked (AreDistinct related) (p row) row (delete_chunk p limit rows)
        (delete_chunk p (suc limit) rows) (delete_chunk-AreDistinct related limit rows h.1)
        (
          delete_chunk-All (λ y. related row y ≡ false) (suc limit) rows h.0,
          delete_chunk-AreDistinct related (suc limit) rows h.1,
        )
