-- ===== src/Absences/History.antt =====
-- Sequences of the operations of backend/internal/absences.
use team_manager.Base.{
  ℕ, ◌≤◌, ◌≡◌, ◌≢◌, inl, inr, Bool, false, String, List, Option, In, any, Distinct-eq, ◌==◌, ==_iff,
  Bool-cases, ok, arith,
}
use team_manager.Roster.Db.{Db}
use team_manager.Absences.Store.{AbsenceRow, nil_id, create, update_absence, delete_absence}
use team_manager.Absences.Service.{set_stats_relevance}
use team_manager.Absences.Overlap.{Bounded, IsValid, create-IsValid}
use team_manager.Absences.Updates.{
  update_absence-IsValid, delete_absence-IsValid, set_stats_relevance-IsValid,
}

-- One successful operation of the service.
pub data Step (db : Db) (rows rows' : List AbsenceRow) : Type 0 where
  created :
      (new_id team user from_date to_date : ℕ) (reason : Option String) (row : AbsenceRow)
      → any (λ a. a.id == new_id) rows ≡ false
      → new_id ≢ nil_id
      → create db rows new_id team user from_date to_date reason ≡ ok (row, rows')
      → Step db rows rows'
  changed :
      (id team user : ℕ) (from_date to_date : Option ℕ) (reason : Option String)
      → update_absence db rows id team user from_date to_date reason ≡ ok rows'
      → Step db rows rows'
  deleted : (id team user : ℕ) → delete_absence db rows id team user ≡ ok rows' → Step db rows rows'
  relevance_set :
      (id team caller : ℕ) (not_relevant : Bool)
      → set_stats_relevance db rows id team caller not_relevant ≡ ok rows'
      → Step db rows rows'

-- Reached from the empty table, under any roster at each step.
pub data Reached : List AbsenceRow → Type 0 where
  empty : Reached List.[]
  next :
      (db : Db) (rows rows' : List AbsenceRow) → Reached rows → Step db rows rows' → Reached rows'

pub Step-IsValid :
    (db : Db) (rows rows' : List AbsenceRow) → Step db rows rows' → IsValid rows → IsValid rows'
Step-IsValid db rows rows' (created k t u f g r row fresh real h) v =
    create-IsValid db rows k t u f g r row rows' fresh real v h
Step-IsValid db rows rows' (changed k t u f g r h) v =
    update_absence-IsValid db rows k t u f g r rows' v h
Step-IsValid db rows rows' (deleted k t u h) v = delete_absence-IsValid db rows k t u rows' v h
Step-IsValid db rows rows' (relevance_set k t c n h) v =
    set_stats_relevance-IsValid db rows k t c n rows' v h

Reached-IsValid : (rows : List AbsenceRow) → Reached rows → IsValid rows
Reached-IsValid _ empty = record {
  keys = tt;
  no_nil = λ a i. elim i [ ];
  bounded = λ a i. elim i [ ];
  apart = λ a b i. elim i [ ];
}
Reached-IsValid rows (next db before _ r s) =
    Step-IsValid db before rows s (Reached-IsValid before r)

-- In every table of absences that Create, Update, Delete and SetStatsRelevance produce from the
-- empty one, a range ends no earlier than it starts and spans at most 1095 days, and on no day does
-- a user have two different absences in one team.
pub one_absence_a_day :
    (rows : List AbsenceRow)
    → Reached rows
    → ((a : AbsenceRow) → In a rows → Bounded a)
      × ((a b : AbsenceRow) (day : ℕ)
          → In a rows
          → In b rows
          → a.team_id ≡ b.team_id
          → a.user_id ≡ b.user_id
          → (a.from_date ≤ day) × (day ≤ a.to_date)
          → (b.from_date ≤ day) × (day ≤ b.to_date)
          → a ≡ b)
one_absence_a_day rows r =
    let v = Reached-IsValid rows r in
    (
      v.bounded,
      λ a b day i j t u (f, g) (k, l). elim (Bool-cases (a.id == b.id)) [
        | inl e ↦ Distinct-eq (λ x. x.id) a b rows v.keys i j ((==_iff a.id b.id).0 e)
        | inr e ↦ let o = v.apart a b i j t u (ground arith) in absurd (ground arith)
      ],
    )
