-- ===== src/SharedConfig/Sharing.antt =====
-- web/src/hooks/use-server-config.ts: mounting, unmounting and the answers, in any order.
use haste_server.Prelude.{
  ℕ, zero, suc, ◌+◌, ◌≡◌, ◌⊎◌, inl, inr, refl, sym, ap, ◌∙◌, true, false, List, [], ◌∷◌, map, All,
  arith, if◌then◌else◌, Bool-cases,
}
use mathlib.Core.Path.{subst}
use haste_server.Api.{ServerConfig}
use haste_server.SharedConfig.{
  fallback_config, Pending, idle, in_flight, fulfilled, Hook, Shared, fresh, mount_with, mount_hook,
  deliver, on_fulfilled, give_up, on_rejected, remove, unmount,
}

-- The requests that are in use: the one behind the promise, if there is a promise.
abbrev pub in_use : Pending → ℕ
in_use idle = 0
in_use in_flight = 1
in_use (fulfilled cfg) = 1

-- A use shows the fallback, or what the promise was fulfilled with; one that waits shows the fallback
-- and has a promise to wait for.
pub record IsServed (pending : Pending) (h : Hook) : Type 0 where
  pub shown : (h.config ≡ fallback_config) ⊎ (pending ≡ fulfilled h.config)
  pub awaited : (h.waiting ≡ false) ⊎ (pending ≡ in_flight)

-- After `failures` requests that failed.
pub record IsShared (failures : ℕ) (s : Shared) : Type 0 where
  pub counted : s.sent ≡ failures + in_use s.pending
  pub served : All (IsServed s.pending) s.hooks

-- What can happen to the shared promise and its uses, with the number of failed requests after it.
pub data Step (s : Shared) (failures : ℕ) : Shared → ℕ → Type 0 where
  mounted : Step s failures (mount_hook s) failures
  unmounted : (n : ℕ) → Step s failures (unmount n s) failures
  answered :
      (cfg : ServerConfig) → s.pending ≡ in_flight → Step s failures (on_fulfilled cfg s) failures
  refused : s.pending ≡ in_flight → Step s failures (on_rejected s) (failures + 1)

pub data Reach : Shared → ℕ → Type 0 where
  loaded : Reach fresh 0
  later : {s s' : Shared} {n n' : ℕ} → Reach s n → Step s n s' n' → Reach s' n'

module _ (P : Hook → Type 0) where
  remove-All : (n : ℕ) (hs : List Hook) → All P hs → All P (remove n hs)
  unfolding remove
  remove-All zero [] v = v
  remove-All (suc n) [] v = v
  remove-All zero (h ∷ hs) (p, v) = v
  remove-All (suc n) (h ∷ hs) (p, v) = (p, remove-All n hs v)

  map-All :
      (Q : Hook → Type 0) (f : Hook → Hook) (hs : List Hook)
      → ((h : Hook) → P h → Q (f h))
      → All P hs
      → All Q (map f hs)
  map-All Q f [] g v = tt
  map-All Q f (h ∷ hs) g (p, v) = (g h p, map-All Q f hs g v)

  All-weaken : (Q : Hook → Type 0) (hs : List Hook) → ((h : Hook) → P h → Q h) → All P hs → All Q hs
  All-weaken Q [] g v = tt
  All-weaken Q (h ∷ hs) g (p, v) = (g h p, All-weaken Q hs g v)

-- Without a fulfilled promise a use shows the fallback.
shows-fallback :
    (pending : Pending) (h : Hook)
    → (pending ≡ idle) ⊎ (pending ≡ in_flight)
    → IsServed pending h
    → h.config ≡ fallback_config
shows-fallback pending h (inl e) v = elim v.shown [ inl f ↦ f | inr g ↦ absurd (cc (sym e ∙ g)) ]
shows-fallback pending h (inr e) v = elim v.shown [ inl f ↦ f | inr g ↦ absurd (cc (sym e ∙ g)) ]

idle-IsServed : (h : Hook) → IsServed idle h → IsServed in_flight h
idle-IsServed h v = record { shown = inl (shows-fallback idle h (inl refl) v); awaited = inr refl }

give_up-IsServed : (h : Hook) → IsServed in_flight h → IsServed idle (give_up h)
unfolding give_up
give_up-IsServed h v = record {
  shown = inl (shows-fallback in_flight h (inr refl) v);
  awaited = inl refl;
}

deliver-IsServed :
    (cfg : ServerConfig) (h : Hook)
    → IsServed in_flight h
    → IsServed (fulfilled cfg) (deliver cfg h)
unfolding deliver
deliver-IsServed cfg h v = elim (Bool-cases h.waiting) [
  | inl waits ↦
      subst (IsServed (fulfilled cfg)) (sym (told waits))
        (record { shown = inr refl; awaited = inl refl })
  | inr done ↦
      subst (IsServed (fulfilled cfg)) (sym (kept done))
        (record { shown = inl (shows-fallback in_flight h (inr refl) v); awaited = inl done })
]
  where
    told : h.waiting ≡ true → deliver cfg h ≡ record { config = cfg; waiting = false }
    told e = ap (λ b. if b then record { config = cfg; waiting = false } else h) e

    kept : h.waiting ≡ false → deliver cfg h ≡ h
    kept e = ap (λ b. if b then record { config = cfg; waiting = false } else h) e

mount_with-IsShared :
    (p : Pending) (n sent : ℕ) (hooks : List Hook)
    → IsShared n (record { pending = p; sent = sent; hooks = hooks })
    → IsShared n (mount_with p (record { pending = p; sent = sent; hooks = hooks }))
unfolding mount_with
mount_with-IsShared idle n sent hooks v = record {
  counted = omega (arith, v.counted);
  served = (
    record { shown = inl refl; awaited = inr refl },
    All-weaken (IsServed idle) (IsServed in_flight) hooks idle-IsServed v.served,
  );
}
mount_with-IsShared in_flight n sent hooks v = record {
  counted = v.counted;
  served = (record { shown = inl refl; awaited = inr refl }, v.served);
}
mount_with-IsShared (fulfilled cfg) n sent hooks v = record {
  counted = v.counted;
  served = (record { shown = inr refl; awaited = inl refl }, v.served);
}

Step-IsShared : {s s' : Shared} {n n' : ℕ} → Step s n s' n' → IsShared n s → IsShared n' s'
unfolding mount_hook unmount on_fulfilled on_rejected
Step-IsShared {s} {s'} {n} mounted v = mount_with-IsShared s.pending n s.sent s.hooks v
Step-IsShared {s} (unmounted k) v = record {
  counted = v.counted;
  served = remove-All (IsServed s.pending) k s.hooks v.served;
}
Step-IsShared {s} {s'} {n} (answered cfg e) v = record {
  counted = v.counted ∙ ap (λ p. n + in_use p) e;
  served =
      map-All (IsServed in_flight) (IsServed (fulfilled cfg)) (deliver cfg) s.hooks
        (deliver-IsServed cfg) (subst (λ p. All (IsServed p) s.hooks) e v.served);
}
Step-IsShared {s} {s'} {n} (refused e) v = record {
  counted = v.counted ∙ ap (λ p. n + in_use p) e ∙ omega arith;
  served =
      map-All (IsServed in_flight) (IsServed idle) give_up s.hooks give_up-IsServed
        (subst (λ p. All (IsServed p) s.hooks) e v.served);
}

-- However uses of the hook are mounted and removed and requests answered or refused: a request is sent
-- only for the first use and again after a failure, so that all but the failed ones come to at most
-- one; each use shows the fallback or what the shared promise was fulfilled with; and a use that
-- waits has a request to wait for.
pub Reach-IsShared : {s : Shared} {n : ℕ} → Reach s n → IsShared n s
Reach-IsShared loaded = unfold fresh in record { counted = refl; served = tt }
Reach-IsShared (later r st) = Step-IsShared st (Reach-IsShared r)
