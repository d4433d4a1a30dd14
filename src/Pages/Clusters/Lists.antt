-- ===== src/Pages/Clusters/Lists.antt =====
-- What the table of a list page shows.
use bigfleet_web_dashboard.Prelude.{
  ℕ, ◌+◌, ◌≤◌, ◌≡◌, refl, Bool, true, false, ◌&&◌, none, some, List, [], ◌∷◌, map, arith, ltb, ◌==◌,
  length, is_some, or_else,
}
use bigfleet_web_dashboard.Ui.Query.{Query, one_if}
use bigfleet_web_dashboard.Pages.Clusters.{TableView, list_page}

abbrev pub messages : {Row : Type 0} → TableView Row → ℕ
messages t = one_if t.loading + one_if t.none_found + one_if (ltb 0 (length t.rows))

length-map : {A B : Type 0} (f : A → B) (xs : List A) → length (map f xs) ≡ length xs
length-map f [] = refl
length-map f (x ∷ xs) = omega (arith, length-map f xs)

-- The messages of a table that is shown, from what it tests.
messages_of :
    (loading found : Bool) (n : ℕ)
    → (loading ≡ true → found ≡ false)
    → (found ≡ false → n ≡ 0)
    → (one_if loading + one_if (found && n == 0) + one_if (ltb 0 n) ≤ 1)
      × (loading ≡ true → one_if loading + one_if (found && n == 0) + one_if (ltb 0 n) ≡ 1)
      × (found ≡ true → one_if loading + one_if (found && n == 0) + one_if (ltb 0 n) ≡ 1)
messages_of loading found n h k = (ground arith, λ e. ground arith, λ e. ground arith)

-- A query that is loading has no data yet. Then a list page shows, with its source wired, either
-- the error or the table, and neither otherwise. The table stands only where the query did not
-- fail, with as many rows as its data has items, and shows at most one of the loading line, the
-- message that nothing was found and the rows; exactly one where the query is loading or has
-- answered.
pub list_page_lem :
    {A Row : Type 0} (view : A → Row) (on : Bool) (q : Query (List A))
    → (q.is_loading ≡ true → q.result ≡ none)
    → (one_if (is_some (list_page view on q).error) + one_if (is_some (list_page view on q).table)
        ≡ one_if on)
      × ((t : TableView Row)
          → (list_page view on q).table ≡ some t
          → (q.error ≡ none)
            × (length t.rows ≡ length (or_else q.result []))
            × (messages t ≤ 1)
            × (q.is_loading ≡ true → messages t ≡ 1)
            × (is_some q.result ≡ true → messages t ≡ 1))
unfolding list_page
list_page_lem view on q h =
    let size = length-map view (or_else q.result []) in
    (
      ground arith,
      λ t e.
          let same : t ≡ record {
            loading = q.is_loading;
            none_found = is_some q.result && length (or_else q.result []) == 0;
            rows = map view (or_else q.result []);
          } =
            ground arith in
          let shown =
            messages_of q.is_loading (is_some q.result) (length (or_else q.result []))
              (λ l. ground (arith, h l)) (λ l. ground arith) in
          (
            ground arith,
            rw (same, size) refl,
            rw (same, size) shown.0,
            rw (same, size) shown.1,
            rw (same, size) shown.2,
          ),
    )
