-- ===== src/SharedConfig/Tests.antt =====
-- Two uses of the hook, a request that fails and one that is answered.
use haste_server.Prelude.{refl, none, []}
use haste_server.Api.{ServerConfig}
use haste_server.SharedConfig.{
  Shared, fresh, mount_with, mount_hook, on_fulfilled, on_rejected, unmount,
}
use haste_server.SharedConfig.Sharing.{
  IsShared, Reach, loaded, later, mounted, unmounted, answered, refused, Reach-IsShared,
}

abbrev served_config : ServerConfig
served_config = record {
  max_chars = 100;
  max_title_chars = 15;
  expiry_options_secs = [];
  cleanup_every_secs = 60;
  base_url = none;
  stats_public = none;
}

abbrev last : Shared
last = unmount 0 (on_fulfilled served_config (mount_hook (on_rejected (mount_hook fresh))))

last-Reach : Reach last 1
unfolding fresh mount_hook mount_with on_rejected
last-Reach =
    later
      (later (later (later (later loaded mounted) (refused refl)) mounted)
        (answered served_config refl))
      (unmounted 0)

Reach-IsShared_example : IsShared 1 last
Reach-IsShared_example = Reach-IsShared last-Reach
