-- ===== src/Disaster/Events.antt =====
-- pkg/disasterrecovery/drevent.go: one backup or restore. Times are numbers, 0 is Go's zero time,
-- and the formatting by RFC 3339 is a parameter.
use backup_tool.Base.{ℕ, Bool, not, ◌++◌, map, if◌then◌else◌, ◌==◌, nat_eq, ◌-◌}
use backup_tool.Base.Text.{Chars, codes}

-- DREvent
pub record DrEvent : Type 0 where
  pub name : Chars
  pub start_time : ℕ
  pub end_time : ℕ

-- NewDREventNow
abbrev pub new_dr_event_now : Chars → ℕ → DrEvent
new_dr_event_now name now = record { name = name; start_time = now; end_time = 0 }

-- DREvent.GetFullName
unfoldable pub get_full_name : (ℕ → Chars) → DrEvent → Chars
get_full_name rfc3339 event =
    event.name ++ codes "-" ++ map (λ c. if c == b':' then b'.' else c) (rfc3339 event.start_time)

-- DREvent.Stop
unfoldable pub stop : ℕ → DrEvent → DrEvent
stop now event = record event { end_time = now }

-- DREvent.HasCompleted
unfoldable pub has_completed : DrEvent → Bool
has_completed event = not (event.end_time == 0)

-- DREvent.CalculateRuntime
unfoldable pub calculate_runtime : ℕ → DrEvent → ℕ
unfolding has_completed
calculate_runtime now event =
    (if has_completed event then event.end_time else now) - event.start_time
