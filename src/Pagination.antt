-- ===== src/Pagination.antt =====
-- Page-numbered lists. The services repeat this code for each list, as in `findReplies` of
-- src/modules/social/comments/comments.service.ts. The query DTOs hold `page` and `limit` to at
-- least 1; a quotient by 0, which JavaScript would make `NaN` or `Infinity`, is not modelled.
pub mod Laws
pub mod Cursors
pub mod Queries
mod Tests
use rideway_api.Prelude.{
  ℕ, zero, suc, ◌+◌, ◌-◌, ◌*◌, ◌/◌, ◌%◌, Bool, List, ltb, ◌==◌, if◌then◌else◌, take, drop,
}

pub record PageMeta : Type 0 where
  pub page : ℕ
  pub limit : ℕ
  pub total : ℕ
  pub total_pages : ℕ
  pub has_next : Bool
  pub has_prev : Bool

-- `Math.ceil(total / limit)`
abbrev pub ceil_div : ℕ → ℕ → ℕ
ceil_div total limit = if total % limit == 0 then total / limit else total / limit + 1

unfoldable pub page_meta : ℕ → ℕ → ℕ → PageMeta
page_meta page limit total =
    let total_pages = ceil_div total limit in
    record {
      page = page;
      limit = limit;
      total = total;
      total_pages = total_pages;
      has_next = ltb page total_pages;
      has_prev = ltb 1 page;
    }

-- `.skip((page - 1) * limit).take(limit)`
unfoldable pub page_rows {ℓ} : {A : Type ℓ} → ℕ → ℕ → List A → List A
page_rows page limit rows = take limit (drop ((page - 1) * limit) rows)
