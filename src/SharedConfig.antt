-- ===== src/SharedConfig.antt =====
-- web/src/hooks/use-server-config.ts: one request for the configuration, shared by all that mount.
pub mod Sharing
mod Tests
use haste_server.Prelude.{
  ℕ, zero, suc, ◌+◌, Bool, true, false, List, [], ◌∷◌, none, map, if◌then◌else◌,
}
use haste_server.Api.{ServerConfig}

-- `FALLBACK`
abbrev pub fallback_config : ServerConfig
fallback_config = record {
  max_chars = 40_000;
  max_title_chars = 15;
  expiry_options_secs = 3600 ∷ 21600 ∷ 43200 ∷ 86400 ∷ 259200 ∷ 604800 ∷ 1209600 ∷ 2592000 ∷ [];
  cleanup_every_secs = 3600;
  base_url = none;
  stats_public = none;
}

-- `pending`: null, or a promise that waits or has been fulfilled.
pub data Pending : Type 0 where
  idle in_flight : Pending
  fulfilled : ServerConfig → Pending

-- A mounted use of the hook: its state, and whether the promise has yet to call it back.
pub record Hook : Type 0 where
  pub config : ServerConfig
  pub waiting : Bool

pub record Shared : Type 0 where
  pub pending : Pending
  pub sent : ℕ
  pub hooks : List Hook

unfoldable pub fresh : Shared
fresh = record { pending = idle; sent = 0; hooks = [] }

-- `pending ??= fetchConfig()`, then `pending.then(…)`, which a fulfilled promise calls back before
-- any other event.
unfoldable pub mount_with : Pending → Shared → Shared
mount_with idle s = record {
  pending = in_flight;
  sent = s.sent + 1;
  hooks = record { config = fallback_config; waiting = true } ∷ s.hooks;
}
mount_with in_flight s = record {
  pending = in_flight;
  sent = s.sent;
  hooks = record { config = fallback_config; waiting = true } ∷ s.hooks;
}
mount_with (fulfilled cfg) s = record {
  pending = fulfilled cfg;
  sent = s.sent;
  hooks = record { config = cfg; waiting = false } ∷ s.hooks;
}

unfoldable pub mount_hook : Shared → Shared
mount_hook s = mount_with s.pending s

-- `setConfig(cfg)` of a use that has not been cancelled.
unfoldable pub deliver : ServerConfig → Hook → Hook
deliver cfg h = if h.waiting then record { config = cfg; waiting = false } else h

unfoldable pub on_fulfilled : ServerConfig → Shared → Shared
on_fulfilled cfg s = record {
  pending = fulfilled cfg;
  sent = s.sent;
  hooks = map (deliver cfg) s.hooks;
}

-- The use keeps its configuration.
unfoldable pub give_up : Hook → Hook
give_up h = record { config = h.config; waiting = false }

-- `pending = null`
unfoldable pub on_rejected : Shared → Shared
on_rejected s = record { pending = idle; sent = s.sent; hooks = map give_up s.hooks }

-- The cleanup cancels a use for good: it leaves the list.
unfoldable pub remove : ℕ → List Hook → List Hook
remove n [] = []
remove zero (h ∷ hs) = hs
remove (suc n) (h ∷ hs) = h ∷ remove n hs

unfoldable pub unmount : ℕ → Shared → Shared
unmount n s = record s { hooks = remove n s.hooks }
