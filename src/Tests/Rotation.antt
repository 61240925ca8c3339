-- ===== src/Tests/Rotation.antt =====
-- Calls of src/tiny_mirror/services/token_service.py at concrete inputs.
use tiny_mirror.Prelude.{◌+◌, ◌*◌, ◌≡◌, refl, String, false, none, some, List, []}
use tiny_mirror.Token.Exec.{Time, second, OAuthToken, Store, ok, Reply, http_error, granted, World}
use tiny_mirror.Token.Service.{rotate, refresh_with_token, refresh_with_lock}
use tiny_mirror.Token.Refresh.{IsStored, refresh_holding_lock}
use tiny_mirror.Token.Crash.{crashed, logging, Recovers, refresh_after_crash}

abbrev first_pair : OAuthToken
first_pair = record {
  access_token = "a1";
  refresh_token = "r1";
  expires_at = 100 * second;
  refresh_expires_at = 1000 * second;
}

abbrev second_pair : OAuthToken
second_pair = record {
  access_token = "a2";
  refresh_token = "r2";
  expires_at = 400 * second;
  refresh_expires_at = 1300 * second;
}

abbrev holding : OAuthToken → Store
holding t = record { row = some t; cached = none; pending = none; locked = false }

-- An endpoint that grants the second pair, and one that nobody reaches.
abbrev grant : String → Time → Reply × Time
grant sent now = (granted "a2" "r2" 300 1200, now + second)

abbrev unreachable : String → Time → Unit {0} → Reply × Time × Unit {0}
unreachable sent now s = (http_error, now + 30 * second, s)

abbrev still : Store → Store
still s = s

abbrev world_of : Store → Time → World (List String)
world_of s now = record { store = s; clock = now; server = [] }

refresh_holding_lock_example :
    let (r, w') =
      refresh_with_lock (logging grant) still "r1" (world_of (holding first_pair) (99 * second)) in
    ((t : OAuthToken) → r ≡ ok t → IsStored t w'.store) × (w'.store.locked ≡ false)
refresh_holding_lock_example =
    refresh_holding_lock (logging grant) still "r1" (world_of (holding first_pair) (99 * second))
      refl

-- The call returns the pair that was granted.
refresh_returns :
    (refresh_with_lock (logging grant) still "r1" (world_of (holding first_pair) (99 * second))).0
    ≡ ok second_pair
unfolding refresh_with_lock refresh_with_token rotate
refresh_returns = refl

-- The process dies once the pair is in the table.
refresh_after_crash_example : Recovers second_pair (
    refresh_with_token (logging grant) still "r2" (record {
      store = crashed 2 (100 * second) second_pair (holding first_pair);
      clock = 200 * second;
      server = [];
    }))
refresh_after_crash_example =
    refresh_after_crash grant still 1 (100 * second) second_pair (holding first_pair) (200 * second)
      second_pair refl
