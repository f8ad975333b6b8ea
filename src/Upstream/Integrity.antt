-- ===== src/Upstream/Integrity.antt =====
-- src/upstream/integrity.rs: whether a stream has produced anything and may be retried.
use kiro_gateway.Common.{ℕ, Bool, true, false, not, ◌&&◌, ltb, if◌then◌else◌}

pub data RetryDecision : Type 0 where
  retry do_not_retry : RetryDecision

pub record StreamIntegrity : Type 0 where
  pub emitted_any : Bool
  pub completed : Bool
  pub incomplete : Bool
  pub attempts : ℕ  -- u8

abbrev pub default_integrity : StreamIntegrity
default_integrity = record {
  emitted_any = false;
  completed = false;
  incomplete = false;
  attempts = 0;
}

unfoldable pub record_emission : StreamIntegrity → StreamIntegrity
record_emission i = record i { emitted_any = true }

unfoldable pub should_retry : StreamIntegrity → RetryDecision
should_retry i =
    if not i.emitted_any && i.incomplete && ltb i.attempts 1 then retry else do_not_retry
