-- ===== src/Events/Attendance.antt =====
-- backend/internal/events/attendance.go and the rows of an attendance list, as the repository returns
-- them and as the API shows them (backend/internal/events/model.go).
use team_manager.Base.{
  ℕ, ◌≡◌, refl, ◌↔◌, arith, str_eq_iff, Bool-cases, inl, inr, Bool, true, false, String, str_eq,
  Option, some, none, if◌then◌else◌,
}
use team_manager.Roster.Db.{RoleRow}

pub record EffectiveAttendance : Type 0 where
  pub status : String
  pub reason : Option String
  pub reason_id : Option String
  pub reason_visibility : Option String
  pub at : Option ℕ
  pub auto : Bool
  pub absent : Bool

abbrev pub without_response : String → Bool → Bool → EffectiveAttendance
without_response status auto absent = record {
  status = status;
  reason = none;
  reason_id = none;
  reason_visibility = none;
  at = none;
  auto = auto;
  absent = absent;
}

unfoldable pub compute_effective_attendance :
    Option String
    → Option String
    → Option String
    → Option String
    → Option ℕ
    → Bool
    → String
    → EffectiveAttendance
compute_effective_attendance (some status) reason reason_id reason_visibility at absence_covers
      mode =
    record {
      status = status;
      reason = reason;
      reason_id = reason_id;
      reason_visibility = reason_visibility;
      at = at;
      auto = false;
      absent = absence_covers;
    }
compute_effective_attendance none reason reason_id reason_visibility at absence_covers mode =
    if absence_covers
    then without_response "no" true true
    else if str_eq mode "opt_out"
    then without_response "yes" true false
    else without_response "pending" false false

pub record AttendanceEnriched : Type 0 where
  pub user_id : ℕ
  pub membership_id : ℕ
  pub name : String
  pub avatar_color : String
  pub has_photo : Bool
  pub group : Option String
  pub title : Option String
  pub primary_role : Option RoleRow
  pub effective : EffectiveAttendance

-- gen.AttendanceRow
pub record ResponseRow : Type 0 where
  pub user_id : ℕ
  pub membership_id : Option ℕ
  pub status : String
  pub name : String
  pub avatar_color : String
  pub has_photo : Bool
  pub reason : Option String
  pub reason_id : Option String
  pub reason_visibility : Option String
  pub group : Option String
  pub title : Option String
  pub primary_role : Option RoleRow
  pub auto : Option Bool
  pub absent : Option Bool
  pub team_name : Option String

pub record EventTeamRow : Type 0 where
  pub team_id : ℕ
  pub team_name : String

-- A row of ListEventMemberTeams.
pub record MemberTeam : Type 0 where
  pub user_id : ℕ
  pub team : EventTeamRow

differs : (a b : String) → str_eq a b ≡ false → a ≡ b → ⊥
differs a b h e = ground (arith, h, str_eq_iff a b)

-- An explicit response is shown as it is, and flagged absent if an absence covers the day. Without a
-- response no reason is shown, the status is automatic unless it is "pending", and an absence makes it
-- "no" whatever the event's response mode is.
pub compute_effective_attendance_lem :
    (explicit reason reason_id visibility : Option String) (at : Option ℕ) (covers : Bool)
    (mode : String)
    → ((status : String)
        → explicit ≡ some status
        → ((compute_effective_attendance explicit reason reason_id visibility at covers mode).status
            ≡ status)
          × ((compute_effective_attendance explicit reason reason_id visibility at covers mode).auto
              ≡ false)
          × ((compute_effective_attendance explicit reason reason_id visibility at covers
                mode).absent
              ≡ covers))
      × (explicit ≡ none
          → ((compute_effective_attendance explicit reason reason_id visibility at covers
                mode).reason
              ≡ none)
            × ((compute_effective_attendance explicit reason reason_id visibility at covers
                  mode).reason_id
                ≡ none)
            × (((compute_effective_attendance explicit reason reason_id visibility at covers
                    mode).auto
                  ≡ false)
                ↔ ((compute_effective_attendance explicit reason reason_id visibility at covers
                      mode).status
                    ≡ "pending"))
            × (covers ≡ true
                → (compute_effective_attendance explicit reason reason_id visibility at covers
                    mode).status
                  ≡ "no"))
unfolding compute_effective_attendance
compute_effective_attendance_lem (some status) reason reason_id visibility at covers mode =
    (λ t e. (cc, refl, refl), λ e. cc)
compute_effective_attendance_lem none reason reason_id visibility at true mode = (
  λ t e. cc,
  λ e. (refl, refl, (λ q. cc q, λ q. absurd (differs "no" "pending" refl q)), λ _. refl),
)
compute_effective_attendance_lem none reason reason_id visibility at false mode = (
  λ t e. cc,
  λ e. elim (Bool-cases (str_eq mode "opt_out")) [
    | inl m ↦
        rw m (refl, refl, (λ q. cc q, λ q. absurd (differs "yes" "pending" refl q)), λ q. cc q)
    | inr m ↦ rw m (refl, refl, (λ _. refl, λ _. refl), λ q. cc q)
  ],
)
