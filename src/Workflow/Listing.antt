-- ===== src/Workflow/Listing.antt =====
-- crates/workflow/src/lib.rs: `list`.
use frontkeep.Base.{
  min, String, ◌≡◌, refl, Bool, true, ◌&&◌, Option, none, some, List, [], ◌∷◌, map, ◌==◌, eq_iff,
  arith, length, keep, take, All, All-take, All-keep, All-map, length-map, length-take, unwrap_or,
  sort, length-sort, All-sort, IsSorted, take-IsSorted, newest_first, newest_first-sort,
}
use frontkeep.Workflow.Engine.{
  row_to_request, selects, list, WorkflowRequest, WorkflowRow, RequestFilter, WorkflowDb,
}
use frontkeep.Workflow.State.{as_str, parse, is_state, is_state_iff, parse-as_str, State}

-- A request that the filter asks for.
abbrev fits_state : Option State → State → Bool
fits_state none s = true
fits_state (some t) s = is_state s t

abbrev fits_text : Option String → String → Bool
fits_text none s = true
fits_text (some t) s = s == t

abbrev pub admits : RequestFilter → WorkflowRequest → Bool
admits filter req =
    fits_state filter.state req.state
    && fits_text filter.requester req.requester
    && fits_text filter.subject req.subject

admits-row :
    (filter : RequestFilter) (row : WorkflowRow)
    → selects filter row ≡ true
    → admits filter (row_to_request row) ≡ true
unfolding selects row_to_request
admits-row filter row h = go filter.state refl
  where
    go : (o : Option State) → filter.state ≡ o → admits filter (row_to_request row) ≡ true
    go none e = ground arith
    go (some t) e =
        ground
          (arith, eq_iff row.state (as_str t), parse-as_str t, is_state_iff (parse row.state) t)

IsSorted-map :
    (rows : List WorkflowRow)
    → IsSorted (newest_first (λ row. row.created_at)) rows
    → IsSorted (newest_first (λ req. req.created_at)) (map row_to_request rows)
unfolding row_to_request
IsSorted-map [] h = tt
IsSorted-map (row ∷ rows) (h, hs) = (
  All-map (λ req. newest_first (λ r. r.created_at) (row_to_request row) req ≡ true) row_to_request
      rows h,
  IsSorted-map rows hs,
)

-- `list` returns requests that fit the filter, newest first, and of those in the table as many as
-- the limit allows, which is 500 where none is given.
pub list_lem :
    (filter : RequestFilter) (db : WorkflowDb)
    → All (λ req. admits filter req ≡ true) (list filter db)
      × IsSorted (newest_first (λ req. req.created_at)) (list filter db)
      × (length (list filter db)
          ≡ min (unwrap_or filter.limit 500) (length (keep (selects filter) db.requests)))
unfolding list row_to_request
list_lem filter db =
    let before : WorkflowRow → WorkflowRow → Bool = newest_first (λ row. row.created_at) in
    let rows = keep (selects filter) db.requests in
    let limit = unwrap_or filter.limit 500 in
    let fit : WorkflowRow → Type 0 = λ row. admits filter (row_to_request row) ≡ true in
    (
      All-map _ row_to_request (take limit (sort before rows)) (
          All-take fit limit (sort before rows) (
            All-sort before fit rows
              (All-keep fit (selects filter) db.requests (admits-row filter)))),
      IsSorted-map (take limit (sort before rows)) (
          take-IsSorted before limit (sort before rows)
            (newest_first-sort (λ row. row.created_at) rows)),
      ground (
        arith,
        length-map row_to_request (take limit (sort before rows)),
        length-take limit (sort before rows),
        length-sort before rows,
      ),
    )
