-- ===== src/Task/Life/Mirror.antt =====
-- Every reachable system of state words is the image of a system of flags that is as it should be.
use monoio.Prelude.{
  ℕ, ◌^◌, ◌<◌, ◌≡◌, refl, sym, ap, ap₂, ◌∙◌, subst, Bool, true, false, none, [], ok, ok_injective,
  arith,
}
use monoio.Task.State.Flags.{Flags}
use monoio.Task.State.Queue.Meant.{initial}
use monoio.Task.Cell.{StateOps, Build, running}
use monoio.Task.Life.{
  Phase, Join, parked, polling, announcing, free, stale, vacant, readable, taken, leaving, gone,
  System, Act, begin, discard, yield, complete, finish, announce, by_ref, by_val, clone, drop,
  receive, lose, poll_join, clear, store, take, fast_drop, slow_drop, release, handles, Enabled,
  perform, Step, act, Reach, here, next, spawn,
}
use monoio.Task.Life.Through.{map_system, map_act, map_phase, map_join, Implements}
use monoio.Task.Life.After.{after}
use monoio.Task.Life.Meant.{Inv}
use monoio.Task.Life.Keeps.{after-Inv}
use monoio.Task.Life.Calls.{perform-after}

-- The flags behind a phase, and behind a point of the join handle.
map_phase-announcing :
    {S : Type 0} (encode : Flags → S) (p : Phase Flags) (g : S)
    → map_phase encode p ≡ announcing g
    → (f : Flags) × (p ≡ announcing f) × (encode f ≡ g)
map_phase-announcing encode parked g e = cc
map_phase-announcing encode polling g e = cc
map_phase-announcing encode (announcing f) g e = (f, refl, cc)

module _ {S W T : Type 0} (encode : Flags → S) where
  pub handles-map_system : (s : System Flags W T) → handles (map_system encode s) ≡ handles s
  handles-map_system s = ground arith

  map_join-vacant :
      (j : Join Flags W T) (w : W) (g : S)
      → map_join encode j ≡ vacant w g
      → (f : Flags) × (j ≡ vacant w f) × (encode f ≡ g)
  map_join-vacant (free x) w g e = cc
  map_join-vacant (stale x) w g e = cc
  map_join-vacant (vacant x f) w g e = (f, cc, cc)
  map_join-vacant readable w g e = cc
  map_join-vacant (taken v) w g e = cc
  map_join-vacant leaving w g e = cc
  map_join-vacant gone w g e = cc

  -- An act of the image is the image of an act.
  pub record Drawn (build : Build) (a : Act S W T) (s : System Flags W T) : Type 0 where
    pub drawn : Act Flags W T
    pub image : map_act encode drawn ≡ a
    pub enabled : Enabled build drawn s

  pub Enabled-Drawn :
      (build : Build) (a : Act S W T) (s : System Flags W T)
      → Enabled build a (map_system encode s)
      → Drawn build a s
  Enabled-Drawn build begin s q = record { drawn = begin; image = refl; enabled = ground arith }
  Enabled-Drawn build discard s q = record { drawn = discard; image = refl; enabled = ground arith }
  Enabled-Drawn build yield s q = record { drawn = yield; image = refl; enabled = ground arith }
  Enabled-Drawn build (complete v) s q = record {
    drawn = complete v;
    image = refl;
    enabled = ground arith;
  }
  Enabled-Drawn build (finish v) s q = record {
    drawn = finish v;
    image = refl;
    enabled = ground arith;
  }
  Enabled-Drawn build (announce g) s q =
      let (f, p, e) = map_phase-announcing encode s.phase g q in
      record { drawn = announce f; image = ap announce e; enabled = p }
  Enabled-Drawn build (by_ref t) s q = record {
    drawn = by_ref t;
    image = refl;
    enabled = ground arith;
  }
  Enabled-Drawn build (by_val t) s q = record {
    drawn = by_val t;
    image = refl;
    enabled = ground arith;
  }
  Enabled-Drawn build clone s q = record { drawn = clone; image = refl; enabled = ground arith }
  Enabled-Drawn build drop s q = record { drawn = drop; image = refl; enabled = ground arith }
  Enabled-Drawn build receive s q = record { drawn = receive; image = refl; enabled = ground arith }
  Enabled-Drawn build lose s q = record { drawn = lose; image = refl; enabled = ground arith }
  Enabled-Drawn build (poll_join w) s q = record {
    drawn = poll_join w;
    image = refl;
    enabled = (q.0, ground arith);
  }
  Enabled-Drawn build (clear w) s q = record {
    drawn = clear w;
    image = refl;
    enabled = ground arith;
  }
  Enabled-Drawn build (store w g) s q =
      let (f, p, e) = map_join-vacant s.join w g q in
      record { drawn = store w f; image = ap (store w) e; enabled = p }
  Enabled-Drawn build take s q = record { drawn = take; image = refl; enabled = ground arith }
  Enabled-Drawn build fast_drop s q = record {
    drawn = fast_drop;
    image = refl;
    enabled = ground arith;
  }
  Enabled-Drawn build slow_drop s q = record {
    drawn = slow_drop;
    image = refl;
    enabled = ground arith;
  }
  Enabled-Drawn build release s q = record { drawn = release; image = refl; enabled = ground arith }

abbrev pub spawned : {W T : Type 0} → ℕ → System Flags W T
spawned owner_id = record {
  world = record {
    state = initial;
    owner_id = owner_id;
    stage = running;
    waker = none;
    freed = false;
    queue = 1;
    sent = 0;
    woken = [];
  };
  phase = parked;
  join = free none;
  wakers = 0;
  result = none;
}

spawned-Inv :
    {W T : Type 0} (same : W → W → Bool) (owner_id : ℕ) → Inv {T = T} same (spawned owner_id)
spawned-Inv same owner_id = ground arith

module _ {S W T : Type 0} (build : Build) (ops : StateOps S) (encode : Flags → S)
    (impl : Implements build.debug ops encode) (same : W → W → Bool)
    (whole : (x : W) → same x x ≡ true) where
  pub record Mirror (t : System S W T) : Type 0 where
    pub flags : System Flags W T
    pub image : map_system encode flags ≡ t
    pub valid : Inv same flags

  pub spawn-Mirror : (owner_id : ℕ) → Mirror (spawn ops owner_id)
  unfolding spawn
  spawn-Mirror owner_id = record {
    flags = spawned owner_id;
    image = rw impl.new-encode refl;
    valid = spawned-Inv same owner_id;
  }

  -- An enabled act of the image succeeds, as the act that it is the image of.
  pub record Performed (a : Act S W T) (t : System S W T) (m : Mirror t) : Type 0 where
    pub meant : Act Flags W T
    pub enabled : Enabled build meant m.flags
    pub room : handles m.flags < 2 ^ 58
    pub performed : perform ops build same a t ≡ ok (map_system encode (after same meant m.flags))

  pub Mirror-Performed :
      (a : Act S W T) {t : System S W T} (m : Mirror t)
      → Enabled build a t
      → handles t < 2 ^ 58
      → Performed a t m
  Mirror-Performed a {t} m q room =
      let q' : Enabled build a (map_system encode m.flags) =
        subst (Enabled build a) (sym m.image) q in
      let d = Enabled-Drawn encode build a m.flags q' in
      let few : handles m.flags < 2 ^ 58 =
        subst (λ k. k < 2 ^ 58) (handles-map_system encode m.flags)
          (subst (λ x. handles x < 2 ^ 58) (sym m.image) room) in
      let e = perform-after build ops encode impl same d.drawn d.enabled few m.valid in
      record {
        meant = d.drawn;
        enabled = d.enabled;
        room = few;
        performed = ap₂ (perform ops build same) (sym d.image) (sym m.image) ∙ e;
      }

  Step-Mirror : {t u : System S W T} → Step ops build same t u → Mirror t → Mirror u
  Step-Mirror {t} {u} (act a q room e) m =
      let p = Mirror-Performed a m q room in
      record {
        flags = after same p.meant m.flags;
        image = ok_injective (sym p.performed ∙ e);
        valid = after-Inv same build whole p.meant p.enabled p.room m.valid;
      }

  pub Reach-Mirror :
      (owner_id : ℕ) {t : System S W T} → Reach ops build same (spawn ops owner_id) t → Mirror t
  Reach-Mirror owner_id here = spawn-Mirror owner_id
  Reach-Mirror owner_id (next r st) = Step-Mirror st (Reach-Mirror owner_id r)
