-- ===== src/Tenant/Pages.antt =====
-- A client that follows `nextCursor` from page to page, and what it collects.
use runboard.Prelude.{
  ℕ, zero, suc, ◌+◌, ◌≤◌, ◌<◌, ◌==◌, ◌≡◌, refl, sym, subst, ap, ◌∙◌, ltb, true, false, Option, none,
  some, List, [], ◌∷◌, ◌++◌, map, length, Bool-cases, inl, inr, arith, ==_self, eq_of_==,
}
use mathlib.Core.List.{append_assoc, append-nil, map-append}
use runboard.Prelude.Keys.{Absent, Distinct}
use runboard.Schema.{Uuid, Db}
use runboard.Exec.{Tx, ok, ◌>>=◌, pure}
use runboard.Tenant.Listings.{take, after_row, after_cursor, last_id, last_of, Page, page_of}

-- A page whose rows are shown by a function.
abbrev pub map_page : {Row Item : Type 0} → (Row → Item) → Page Row → Page Item
map_page f page = record { items = map f page.items; next_cursor = page.next_cursor }

-- Asks for the page at the cursor, then for the next one, until there is no next cursor. The
-- requests are numbered downwards, since each of them may be answered in its own way.
module _ {Item : Type 0} (fetch : (request : ℕ) → Option Uuid → Tx (Page Item)) where
  abbrev pub collect : ℕ → Option Uuid → Tx (List Item)
  collect zero cursor = pure []
  collect (suc fuel) cursor = do
    page ← fetch fuel cursor
    rest ← elim page.next_cursor [ none ↦ pure [] | some id ↦ collect fuel (some id) ]
    pure (page.items ++ rest)

module _ {Row : Type 0} (id : Row → Uuid) where
  not_Absent :
      (before : List Row) (r : Row) (rest : List Row) → ¬ Absent id (id r) (before ++ r ∷ rest)
  not_Absent [] r rest (ne, _) = ne refl
  not_Absent (x ∷ before) r rest (_, absent) = not_Absent before r rest absent

  after_row-append :
      (before : List Row) (r : Row) (rest : List Row)
      → Distinct id (before ++ r ∷ rest)
      → after_row id (id r) (before ++ r ∷ rest) ≡ rest
  after_row-append [] r rest _ = rw (==_self (id r)) refl
  after_row-append (x ∷ before) r rest (absent, distinct) = elim (Bool-cases (id x == id r)) [
    | inl same ↦ absurd (
        not_Absent before r rest
          (subst (λ a. Absent id a (before ++ r ∷ rest)) (eq_of_== (id x) (id r) same) absent))
    | inr other ↦ rw other (after_row-append before r rest distinct)
  ]

  -- The last row of a full page, and what comes after it.
  record Cut (n : ℕ) (rows : List Row) : Type 0 where
    front : List Row
    last : Row
    rest : List Row
    whole : rows ≡ front ++ last ∷ rest
    taken : take n rows ≡ front ++ last ∷ []
    shorter : length rows ≡ n + length rest

  cut : (n : ℕ) (rows : List Row) → 1 ≤ n → n ≤ length rows → Cut n rows
  cut zero rows h _ = absurd (omega arith)
  cut (suc n) [] _ h = absurd (omega arith)
  cut (suc zero) (r ∷ rows) _ h = record {
    front = [];
    last = r;
    rest = rows;
    whole = refl;
    taken = refl;
    shorter = omega arith;
  }
  cut (suc (suc n)) (r ∷ rows) _ h =
      let c = cut (suc n) rows (omega arith) (omega arith) in
      record {
        front = r ∷ c.front;
        last = c.last;
        rest = c.rest;
        whole = ap (λ xs. r ∷ xs) c.whole;
        taken = ap (λ xs. r ∷ xs) c.taken;
        shorter = omega (arith, c.shorter);
      }

  last_id-append : (x : Row) (front : List Row) (r : Row) → last_id id x (front ++ r ∷ []) ≡ id r
  last_id-append x [] r = refl
  last_id-append x (y ∷ front) r = last_id-append y front r

  last_of-append : (front : List Row) (r : Row) → last_of id (front ++ r ∷ []) ≡ some (id r)
  last_of-append [] r = refl
  last_of-append (x ∷ front) r = ap some (last_id-append x front r)

  take_all : (n : ℕ) (rows : List Row) → length rows ≤ n → take n rows ≡ rows
  take_all zero [] _ = refl
  take_all zero (r ∷ rows) h = absurd (omega arith)
  take_all (suc n) [] _ = refl
  take_all (suc n) (r ∷ rows) h = ap (λ xs. r ∷ xs) (take_all n rows (omega arith))

  length-take : (n : ℕ) (rows : List Row) → n ≤ length rows → length (take n rows) ≡ n
  length-take zero rows _ = refl
  length-take (suc n) [] h = absurd (omega arith)
  length-take (suc n) (r ∷ rows) h = omega (arith, length-take n rows)

  take-take : (n : ℕ) (rows : List Row) → take n (take (suc n) rows) ≡ take n rows
  take-take zero rows = refl
  take-take (suc n) [] = refl
  take-take (suc n) (r ∷ rows) = ap (λ xs. r ∷ xs) (take-take n rows)

  page_of_last :
      (n : ℕ) (rows : List Row)
      → length rows ≤ n
      → page_of id n (take (n + 1) rows) ≡ record { items = rows; next_cursor = none }
  page_of_last n rows h =
      let all = take_all (n + 1) rows (omega arith) in
      let no_more : ltb n (length rows) ≡ false = ground arith in rw all (rw no_more refl)

  page_of_more :
      (n : ℕ) (rows : List Row) (c : Cut n rows)
      → n < length rows
      → page_of id n (take (n + 1) rows)
        ≡ record { items = c.front ++ c.last ∷ []; next_cursor = some (id c.last) }
  page_of_more n rows c h =
      let e : n + 1 ≡ suc n = omega arith in
      let more : ltb n (length (take (suc n) rows)) ≡ true =
        rw (length-take (suc n) rows (omega arith)) (ground arith) in
      rw (e, more, take-take n rows, c.taken, last_of-append c.front c.last) refl

module _ {Row Item : Type 0} (id : Row → Uuid) (f : Row → Item) (n : ℕ) (db : Db) (rows : List Row)
    (fetch : ℕ → Option Uuid → Tx (Page Item)) (positive : 1 ≤ n) (distinct : Distinct id rows)
    (answers : (request : ℕ) (cursor : Option Uuid)
      → fetch request cursor db
        ≡ (ok (map_page f (page_of id n (take (n + 1) (after_cursor id cursor rows)))), db)) where
  fetched :
      (request : ℕ) (cursor : Option Uuid) (after : List Row) (page : Page Row)
      → after_cursor id cursor rows ≡ after
      → page_of id n (take (n + 1) after) ≡ page
      → fetch request cursor db ≡ (ok (map_page f page), db)
  fetched request cursor after page at found =
      answers request cursor
      ∙ ap (λ p. (ok (map_page f p), db)) (ap (λ xs. page_of id n (take (n + 1) xs)) at ∙ found)

  collect_from :
      (fuel : ℕ) (cursor : Option Uuid) (before after : List Row)
      → rows ≡ before ++ after
      → after_cursor id cursor rows ≡ after
      → length after < fuel
      → collect fetch fuel cursor db ≡ (ok (map f after), db)
  collect_from zero cursor before after whole at h = absurd (omega arith)
  collect_from (suc fuel) cursor before after whole at h =
      elim (Bool-cases (ltb n (length after))) [
        | inr last ↦
            rw
              (
                fetched fuel cursor after _ at (page_of_last id n after (ground arith)),
                append-nil (map f after),
              )
              refl
        | inl more ↦
            let c = cut id n after positive (ground arith) in
            let whole' : rows ≡ (before ++ c.front) ++ c.last ∷ c.rest =
              whole
              ∙ ap (λ xs. before ++ xs) c.whole
              ∙ sym (append_assoc before c.front (c.last ∷ c.rest)) in
            let next : after_row id (id c.last) rows ≡ c.rest =
              ap (after_row id (id c.last)) whole'
              ∙ after_row-append id (before ++ c.front) c.last c.rest
                  (subst (Distinct id) whole' distinct) in
            let ih =
              collect_from fuel (some (id c.last)) (before ++ c.front ++ c.last ∷ []) c.rest
                (whole' ∙ sym (append_assoc (before ++ c.front) (c.last ∷ []) c.rest)) next
                (omega (arith, c.shorter)) in
            rw (fetched fuel cursor after _ at (page_of_more id n after c (ground arith)), ih)
              (ap (λ items. (ok items, db))
                (sym (map-append f (c.front ++ c.last ∷ []) c.rest)
                  ∙ ap (map f) (append_assoc c.front (c.last ∷ []) c.rest ∙ sym c.whole)))
      ]

  -- The pages together are the rows, in order, each once.
  pub collect_all : collect fetch (suc (length rows)) none db ≡ (ok (map f rows), db)
  collect_all = collect_from (suc (length rows)) none [] rows refl refl (omega arith)
