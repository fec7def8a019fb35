-- ===== src/Storage/Leases.antt =====
-- crates/storage/src/leases.rs: coordination leases. A call's clock reading is an argument, so that
-- the calls of several processes can be put in any order. An acquisition is one statement, so it is
-- one step.
use frontkeep.Base.{
  ℕ, String, Bool, true, false, ◌&&◌, ◌||◌, none, some, List, [], ◌∷◌, ◌++◌, ◌==◌, ltb,
  if◌then◌else◌, update_where, delete_where, by_key, row_of,
}
use frontkeep.Storage.Env.{plus_seconds}

pub record LeaseRow : Type 0 where
  pub name : String
  pub holder : String
  pub expires_at : ℕ

abbrev pub lease_name : LeaseRow → String
lease_name row = row.name

-- The `WHERE` of the upsert: the row that is there is ours, or has expired.
abbrev pub takeable : ℕ → String → LeaseRow → Bool
takeable now holder row = row.holder == holder || ltb row.expires_at now

-- `try_acquire` by `holder`, with the instant that it reads.
unfoldable pub try_acquire : ℕ → String → String → ℕ → List LeaseRow → List LeaseRow × Bool
try_acquire now holder name ttl_secs rows =
    let expires = plus_seconds now ttl_secs in
    elim (row_of lease_name name rows) [
      | none ↦ (rows ++ record { name = name; holder = holder; expires_at = expires } ∷ [], true)
      | some row ↦
          if takeable now holder row
          then (
            update_where (by_key lease_name name)
                (λ old. record old { holder = holder; expires_at = expires }) rows,
            true,
          )
          else (rows, false)
    ]

unfoldable pub renew : ℕ → String → String → ℕ → List LeaseRow → List LeaseRow × Bool
renew now holder name ttl_secs rows = try_acquire now holder name ttl_secs rows

-- `release` by `holder`
unfoldable pub release : String → String → List LeaseRow → List LeaseRow
release holder name rows = delete_where (λ row. row.name == name && row.holder == holder) rows

-- A call of some process: an acquisition or renewal at an instant, or a release.
pub data LeaseCall : Type 0 where
  acquires renews : (now : ℕ) (holder name : String) (ttl_secs : ℕ) → LeaseCall
  releases : (holder name : String) → LeaseCall

unfoldable pub step : List LeaseRow → LeaseCall → List LeaseRow
step rows (acquires now holder name ttl) = (try_acquire now holder name ttl rows).0
step rows (renews now holder name ttl) = (renew now holder name ttl rows).0
step rows (releases holder name) = release holder name rows

unfoldable pub run : List LeaseRow → List LeaseCall → List LeaseRow
run rows [] = rows
run rows (c ∷ cs) = run (step rows c) cs
