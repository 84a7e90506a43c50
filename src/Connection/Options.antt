-- ===== src/Connection/Options.antt =====
-- connection.go, ConnectionOptions: the limits of a connection, their defaults and their check.
use acp_go_sdk.Base.{
  ◌∙◌, ap, subst, zero, suc, ◌≤◌, ◌≡◌, refl, Bool, false, ◌||◌, if◌then◌else◌, arith, ◌*◌,
}
use acp_go_sdk.Base.Int.{ℤ, pos, negsuc, ltb_ℤ, pos_part}
use acp_go_sdk.Bytes.{Bytes}
use acp_go_sdk.Base.{Option, none}
use acp_go_sdk.Result.{Result, ok, err}

-- `accept_notification` is the predicate of a method, `none` for nil. The logger is left out.
pub record ConnectionOptions : Type 0 where
  pub max_frame_size : ℤ
  pub max_pending_requests : ℤ
  pub max_handler_concurrency : ℤ
  pub max_queued_requests : ℤ
  pub max_queued_notifications : ℤ
  pub max_notification_bytes : ℤ
  pub max_queued_writes : ℤ
  pub accept_notification : Option (Bytes → Bool)
  pub reject_batch : Bool

abbrev pub default_connection_options : ConnectionOptions
default_connection_options = record {
  max_frame_size = pos (10 * 1024 * 1024);
  max_pending_requests = pos 1024;
  max_handler_concurrency = pos 32;
  max_queued_requests = pos 128;
  max_queued_notifications = pos 1024;
  max_notification_bytes = pos (32 * 1048576);
  max_queued_writes = pos 1024;
  accept_notification = none;
  reject_batch = false;
}

pub data OptionsError : Type 0 where
  limits_not_positive : OptionsError

unfoldable pub or_default : ℤ → ℤ → ℤ
or_default (pos zero) d = d
or_default v d = v

-- The options with a default in place of each zero.
unfoldable pub with_defaults : ConnectionOptions → ConnectionOptions
with_defaults opts =
    let d = default_connection_options in
    record opts {
      max_frame_size = or_default opts.max_frame_size d.max_frame_size;
      max_pending_requests = or_default opts.max_pending_requests d.max_pending_requests;
      max_handler_concurrency = or_default opts.max_handler_concurrency d.max_handler_concurrency;
      max_queued_requests = or_default opts.max_queued_requests d.max_queued_requests;
      max_queued_notifications =
          or_default opts.max_queued_notifications d.max_queued_notifications;
      max_notification_bytes = or_default opts.max_notification_bytes d.max_notification_bytes;
      max_queued_writes = or_default opts.max_queued_writes d.max_queued_writes;
    }

any_below_one : ConnectionOptions → Bool
any_below_one o =
    ltb_ℤ o.max_frame_size (pos 1)
    || ltb_ℤ o.max_pending_requests (pos 1)
    || ltb_ℤ o.max_handler_concurrency (pos 1)
    || ltb_ℤ o.max_queued_requests (pos 1)
    || ltb_ℤ o.max_queued_notifications (pos 1)
    || ltb_ℤ o.max_notification_bytes (pos 1)
    || ltb_ℤ o.max_queued_writes (pos 1)

checked : ConnectionOptions → Result OptionsError ConnectionOptions
checked opts = if any_below_one opts then err limits_not_positive else ok opts

pub normalize_connection_options : ConnectionOptions → Result OptionsError ConnectionOptions
normalize_connection_options opts = checked (with_defaults opts)

abbrev IsPositive : ℤ → Type 0
IsPositive v = 1 ≤ pos_part v

-- Every limit is at least 1.
pub record IsUsable (o : ConnectionOptions) : Type 0 where
  pub frame : IsPositive o.max_frame_size
  pub pending : IsPositive o.max_pending_requests
  pub handlers : IsPositive o.max_handler_concurrency
  pub requests : IsPositive o.max_queued_requests
  pub notifications : IsPositive o.max_queued_notifications
  pub notification_bytes : IsPositive o.max_notification_bytes
  pub writes : IsPositive o.max_queued_writes

or_default-IsPositive :
    (v d : ℤ) → IsPositive d → ltb_ℤ (or_default v d) (pos 1) ≡ false → IsPositive (or_default v d)
unfolding or_default
or_default-IsPositive (pos zero) d h e = h
or_default-IsPositive (pos (suc n)) d h e = omega arith
or_default-IsPositive (negsuc n) d h e = ground arith

-- A limit is refused when it is below zero.
or_default-below_one : (v d : ℤ) → IsPositive d → ltb_ℤ (or_default v d) (pos 1) ≡ ltb_ℤ v (pos 0)
unfolding or_default
or_default-below_one (pos zero) d h = ground arith
or_default-below_one (pos (suc n)) d h = ground arith
or_default-below_one (negsuc n) d h = ground arith

or_default_id : (v d : ℤ) → IsPositive v → or_default v d ≡ v
unfolding or_default
or_default_id (pos zero) d h = absurd (omega arith)
or_default_id (pos (suc n)) d h = refl
or_default_id (negsuc n) d h = refl

positive-below_one : (v : ℤ) → IsPositive v → ltb_ℤ v (pos 1) ≡ false
positive-below_one (pos n) h = ground arith
positive-below_one (negsuc n) h = absurd (omega arith)

any_below_one-IsUsable :
    (o : ConnectionOptions) → any_below_one (with_defaults o) ≡ false → IsUsable (with_defaults o)
unfolding any_below_one with_defaults
any_below_one-IsUsable o h =
    let d = default_connection_options in
    record {
      frame = or_default-IsPositive o.max_frame_size d.max_frame_size (omega arith) (ground arith);
      pending =
          or_default-IsPositive o.max_pending_requests d.max_pending_requests (omega arith)
            (ground arith);
      handlers =
          or_default-IsPositive o.max_handler_concurrency d.max_handler_concurrency (omega arith)
            (ground arith);
      requests =
          or_default-IsPositive o.max_queued_requests d.max_queued_requests (omega arith)
            (ground arith);
      notifications =
          or_default-IsPositive o.max_queued_notifications d.max_queued_notifications (omega arith)
            (ground arith);
      notification_bytes =
          or_default-IsPositive o.max_notification_bytes d.max_notification_bytes (omega arith)
            (ground arith);
      writes =
          or_default-IsPositive o.max_queued_writes d.max_queued_writes (omega arith)
            (ground arith);
    }

checked-split :
    (o : ConnectionOptions) {r : ConnectionOptions}
    → checked o ≡ ok r
    → (any_below_one o ≡ false) × (o ≡ r)
unfolding checked
checked-split o h = ground arith

checked_ok : (o : ConnectionOptions) → any_below_one o ≡ false → checked o ≡ ok o
unfolding checked
checked_ok o h = rw h

-- Whatever is accepted has only positive limits, so every queue of a connection has room.
pub normalize_connection_options-IsUsable :
    (o : ConnectionOptions) {r : ConnectionOptions}
    → normalize_connection_options o ≡ ok r
    → IsUsable r
unfolding normalize_connection_options
normalize_connection_options-IsUsable o h =
    let (good, e) = checked-split (with_defaults o) h in
    subst IsUsable e (any_below_one-IsUsable o good)

with_defaults_id : (o : ConnectionOptions) → IsUsable o → with_defaults o ≡ o
unfolding with_defaults
with_defaults_id o u i =
    let d = default_connection_options in
    record o {
      max_frame_size = or_default_id o.max_frame_size d.max_frame_size u.frame i;
      max_pending_requests =
          or_default_id o.max_pending_requests d.max_pending_requests u.pending i;
      max_handler_concurrency =
          or_default_id o.max_handler_concurrency d.max_handler_concurrency u.handlers i;
      max_queued_requests = or_default_id o.max_queued_requests d.max_queued_requests u.requests i;
      max_queued_notifications =
          or_default_id o.max_queued_notifications d.max_queued_notifications u.notifications i;
      max_notification_bytes =
          or_default_id o.max_notification_bytes d.max_notification_bytes u.notification_bytes i;
      max_queued_writes = or_default_id o.max_queued_writes d.max_queued_writes u.writes i;
    }

-- Normalising what was normalised changes nothing.
pub normalize_connection_options_idem :
    (o : ConnectionOptions) {r : ConnectionOptions}
    → normalize_connection_options o ≡ ok r
    → normalize_connection_options r ≡ ok r
unfolding normalize_connection_options
normalize_connection_options_idem o {r} h =
    let (good, e) = checked-split (with_defaults o) h in
    let u = normalize_connection_options-IsUsable o h in
    ap checked (with_defaults_id r u) ∙ checked_ok r (subst (λ x. any_below_one x ≡ false) e good)

unfoldable pub any_negative : ConnectionOptions → Bool
any_negative o =
    ltb_ℤ o.max_frame_size (pos 0)
    || ltb_ℤ o.max_pending_requests (pos 0)
    || ltb_ℤ o.max_handler_concurrency (pos 0)
    || ltb_ℤ o.max_queued_requests (pos 0)
    || ltb_ℤ o.max_queued_notifications (pos 0)
    || ltb_ℤ o.max_notification_bytes (pos 0)
    || ltb_ℤ o.max_queued_writes (pos 0)

any_below_one-negative : (o : ConnectionOptions) → any_below_one (with_defaults o) ≡ any_negative o
unfolding any_negative any_below_one with_defaults
any_below_one-negative o i =
    let d = default_connection_options in
    or_default-below_one o.max_frame_size d.max_frame_size (omega arith) i
    || or_default-below_one o.max_pending_requests d.max_pending_requests (omega arith) i
    || or_default-below_one o.max_handler_concurrency d.max_handler_concurrency (omega arith) i
    || or_default-below_one o.max_queued_requests d.max_queued_requests (omega arith) i
    || or_default-below_one o.max_queued_notifications d.max_queued_notifications (omega arith) i
    || or_default-below_one o.max_notification_bytes d.max_notification_bytes (omega arith) i
    || or_default-below_one o.max_queued_writes d.max_queued_writes (omega arith) i

-- Options are accepted, with a default in place of each zero, exactly when no limit is negative.
pub normalize_connection_options_lem :
    (o : ConnectionOptions)
    → normalize_connection_options o
      ≡ (if any_negative o then err limits_not_positive else ok (with_defaults o))
unfolding normalize_connection_options checked
normalize_connection_options_lem o = rw (any_below_one-negative o)
