-- ===== src/Pagination/Tests.antt =====
-- Page-numbered lists on small examples.
use rideway_api.Prelude.{ℕ, ◌+◌, ◌≡◌, ◌<◌, ◌↔◌, refl, true, List, [], ◌∷◌, arith, length}
use rideway_api.Pagination.{page_meta, page_rows}
use rideway_api.Pagination.Laws.{first_pages, page_meta_lem}

abbrev five : List ℕ
five = 10 ∷ 20 ∷ 30 ∷ 40 ∷ 50 ∷ []

last_page : page_rows 3 2 five ≡ 50 ∷ []
unfolding page_rows
last_page = refl

page_meta_lem_example :
    (first_pages (page_meta 2 2 (length five)).total_pages 2 five ≡ five)
    × (((page_meta 2 2 (length five)).has_next ≡ true) ↔ (0 < length (page_rows (2 + 1) 2 five)))
page_meta_lem_example = page_meta_lem 2 2 five (omega arith)
