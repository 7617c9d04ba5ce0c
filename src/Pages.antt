-- ===== src/Pages.antt =====
-- The pages of a listing, as src/services/PlaylistService.ts and src/services/WebhookService.ts cut
-- them out of a query.
use native.Mathlib.Nat.{suc-mul, lt-div-mul-add}
use audio_block_backend.Base.{
  ℕ, zero, suc, ◌+◌, ◌-◌, ◌*◌, ◌/◌, ◌≤◌, ◌<◌, min, max, ◌≡◌, refl, sym, ap, ◌∙◌, List, [], ◌∷◌,
  ◌++◌, arith, length, take, drop,
}

pub record Page (A : Type 0) : Type 0 where
  pub rows : List A
  pub page : ℕ
  pub limit : ℕ
  pub total : ℕ
  pub total_pages : ℕ

-- The rows of a query, in its order, with `skip` and `take`; the page and the limit as they come.
unfoldable pub page_of : {A : Type 0} → ℕ → ℕ → List A → Page A
page_of page limit rows =
    let safe_page = max 1 page in
    let safe_limit = min (max 1 limit) 100 in
    record {
      rows = take safe_limit (drop ((safe_page - 1) * safe_limit) rows);
      page = safe_page;
      limit = safe_limit;
      total = length rows;
      total_pages = (length rows + (safe_limit - 1)) / safe_limit;
    }

-- Rows are appended, so that the newest stand last.
unfoldable pub newest_first : {A : Type 0} → List A → List A
newest_first [] = []
newest_first (r ∷ rows) = newest_first rows ++ r ∷ []

module _ {A : Type 0} where
  -- The rows of the first pages, one after the other.
  pub first_pages : ℕ → ℕ → List A → List A
  first_pages zero limit rows = []
  first_pages (suc n) limit rows = first_pages n limit rows ++ (page_of (suc n) limit rows).rows

  none_left : (n : ℕ) → take {A = A} n [] ≡ []
  none_left zero = refl
  none_left (suc n) = refl

  take-add : (m n : ℕ) (rows : List A) → take m rows ++ take n (drop m rows) ≡ take (m + n) rows
  take-add zero n rows = let e : n ≡ 0 + n = omega arith in ap (λ k. take k rows) e
  take-add (suc m) n [] = none_left n ∙ sym (none_left (suc m + n))
  take-add (suc m) n (r ∷ rows) =
      let e : suc (m + n) ≡ suc m + n = omega arith in
      ap (◌∷◌ r) (take-add m n rows) ∙ ap (λ k. take k (r ∷ rows)) e

  first_pages-take :
      (n limit : ℕ) (rows : List A)
      → first_pages n limit rows ≡ take (n * min (max 1 limit) 100) rows
  unfolding first_pages page_of
  first_pages-take zero limit rows =
      let e : 0 ≡ 0 * min (max 1 limit) 100 = omega arith in ap (λ k. take k rows) e
  first_pages-take (suc n) limit rows =
      let l = min (max 1 limit) 100 in
      let before : max 1 (suc n) - 1 ≡ n = omega arith in
      ap (λ xs. xs ++ take l (drop ((max 1 (suc n) - 1) * l) rows)) (first_pages-take n limit rows)
      ∙ ap (λ k. take (n * l) rows ++ take l (drop (k * l) rows)) before
      ∙ take-add (n * l) l rows
      ∙ ap (λ k. take k rows) (sym (suc-mul n l))

  take_all : (n : ℕ) (rows : List A) → length rows ≤ n → take n rows ≡ rows
  take_all zero [] h = refl
  take_all zero (r ∷ rows) h = absurd (omega arith)
  take_all (suc n) [] h = refl
  take_all (suc n) (r ∷ rows) h = ap (◌∷◌ r) (take_all n rows (omega arith))

  -- The pages that a listing says it has are its rows, each once and in order.
  pub pages_cover :
      (limit : ℕ) (rows : List A) → first_pages (page_of 1 limit rows).total_pages limit rows ≡ rows
  unfolding page_of
  pages_cover limit rows =
      let l = min (max 1 limit) 100 in
      let room : 0 < l = omega arith in
      let pages = (length rows + (l - 1)) / l in
      let enough = lt-div-mul-add {a = length rows + (l - 1)} room in
      first_pages-take pages limit rows ∙ take_all (pages * l) rows (omega (arith, enough))
