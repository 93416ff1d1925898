-- ===== src/Driver/SharedFd.antt =====
-- monoio/src/driver/shared_fd.rs, for unix: a descriptor that several owners share, and its closing.
-- An owner that is in `close` is one of them until its future is done or dropped. Whether `Op::close`
-- can be submitted and whether it has completed are arguments, as are the wakers, of type `W`. Of the
-- driver only the tokens to deregister are kept. A build with `poll-io` also has calls that convert a
-- descriptor to polling and back; they are left out.
pub mod Once
pub mod Twice
pub mod Stuck
mod Tests
use monoio.Prelude.{
  ℕ, zero, suc, ◌+◌, ◌-◌, Bool, true, false, Option, none, some, List, [], ◌∷◌, ◌++◌, ◌==◌,
  if◌then◌else◌,
}

-- The operation of `Closing` is known by its polls.
pub data UringState (W : Type 0) : Type 0 where
  init : UringState W
  waiting : Option W → UringState W
  closing : UringState W
  closed : UringState W
  uring_legacy : Option ℕ → UringState W

pub data State (W : Type 0) : Type 0 where
  uring : UringState W → State W
  legacy : Option ℕ → State W

-- A close of the descriptor: an operation that is submitted, or the drop of a `File`.
pub data Close : Type 0 where
  submitted : Close
  dropped_file : Close

-- `Op::close`, or dropping a `File` if that fails
abbrev pub close_by : Bool → Close
close_by true = submitted
close_by false = dropped_file

-- `deregister` for a token
abbrev pub tokens : Option ℕ → List ℕ
tokens none = []
tokens (some idx) = idx ∷ []

pub record SharedFd (W : Type 0) : Type 0 where
  -- The owners that are in `close`, and the others
  pub owners : ℕ
  pub closers : ℕ
  pub state : State W
  -- What happened to the descriptor, in order, and the tokens deregistered
  pub closes : List Close
  pub deregistered : List ℕ
  -- How often it was given back without being closed
  pub given : ℕ

module _ {W : Type 0} where
  abbrev pub new : State W → SharedFd W
  new state = record {
    owners = 1;
    closers = 0;
    state = state;
    closes = [];
    deregistered = [];
    given = 0;
  }

  -- `Inner::drop` in the runtime that made the descriptor: how it closes it, and what it deregisters.
  abbrev pub inner_drop : Bool → State W → List Close × List ℕ
  inner_drop ok (uring init) = (close_by ok ∷ [], [])
  inner_drop ok (uring (waiting w)) = (close_by ok ∷ [], [])
  inner_drop ok (uring closing) = ([], [])
  inner_drop ok (uring closed) = ([], [])
  inner_drop ok (uring (uring_legacy idx)) = (dropped_file ∷ [], tokens idx)
  inner_drop ok (legacy idx) = (dropped_file ∷ [], tokens idx)

  -- An owner is gone: the last one drops what they share.
  abbrev pub settle : Bool → SharedFd W → SharedFd W
  settle ok s =
      let d = inner_drop ok s.state in
      if s.owners + s.closers == 0
      then record s { closes = s.closes ++ d.0; deregistered = s.deregistered ++ d.1 }
      else s

  -- What `try_unwrap` deregisters: it looks for a token in a descriptor of the legacy driver alone.
  abbrev pub unwrap_tokens : State W → List ℕ
  unwrap_tokens (uring u) = []
  unwrap_tokens (legacy idx) = tokens idx

  -- `try_unwrap`: the only owner goes, and has the descriptor; any other keeps its share. `n` are
  -- the other owners.
  abbrev pub try_unwrap : ℕ → SharedFd W → SharedFd W
  try_unwrap n s =
      if s.owners + s.closers == 1
      then record s {
        owners = n;
        deregistered = s.deregistered ++ unwrap_tokens s.state;
        given = s.given + 1;
      }
      else s

-- What an owner does. `unwrap` is `try_unwrap`, and `abandon` drops the future of a `close`.
pub data Event (W : Type 0) : Type 0 where
  clone : Event W
  drop : Bool → Event W
  unwrap : Event W
  close_event : Bool → Bool → W → Bool → Event W
  poll_event : Bool → W → Bool → Event W
  abandon : Bool → Event W

-- If there is one to do it; `n` are the others.
abbrev pub one_of : {W : Type 0} → ℕ → (ℕ → SharedFd W) → Option (SharedFd W)
one_of zero f = none
one_of (suc n) f = some (f n)

module _ {W : Type 0} (will_wake : W → W → Bool) where
  -- `Inner::closed`: whether it is done, and the state. `done` says if the operation has completed.
  abbrev pub poll_closed : Bool → W → State W → Bool × State W
  poll_closed done w (uring init) = (false, uring (waiting (some w)))
  poll_closed done w (uring (waiting none)) = (false, uring (waiting (some w)))
  poll_closed done w (uring (waiting (some v))) =
      (false, uring (waiting (some (if will_wake v w then v else w))))
  poll_closed true w (uring closing) = (true, uring closed)
  poll_closed false w (uring closing) = (false, uring closing)
  poll_closed done w (uring closed) = (true, uring closed)
  poll_closed done w (uring (uring_legacy idx)) = (true, uring (uring_legacy idx))
  poll_closed done w (legacy idx) = (true, legacy idx)

  -- A closer that is done drops its share.
  abbrev pub leave : Bool → Bool → SharedFd W → SharedFd W
  leave true ok s = settle ok (record s { closers = s.closers - 1 })
  leave false ok s = s

  -- A poll of the future of `close` where it awaits `closed`
  abbrev pub poll : Bool → W → Bool → SharedFd W → SharedFd W
  poll done w ok s = let p = poll_closed done w s.state in leave p.0 ok (record s { state = p.1 })

  -- `close` of the only owner
  abbrev pub close_alone : Bool → Bool → W → Bool → SharedFd W → SharedFd W
  close_alone true done w ok s =
      poll done w ok (record s { state = uring closing; closes = s.closes ++ submitted ∷ [] })
  close_alone false done w ok s =
      leave true ok (record s { closes = s.closes ++ dropped_file ∷ [] })

  -- `close`, up to its first pending poll. `submit` says whether `Op::close` succeeds, and `ok`
  -- whether it does in `Inner::drop`.
  abbrev pub close : Bool → Bool → W → Bool → State W → SharedFd W → SharedFd W
  close submit done w ok (uring u) s =
      if s.owners + s.closers == 1 then close_alone submit done w ok s else poll done w ok s
  close submit done w ok (legacy idx) s = leave true ok s

  unfoldable pub step : Event W → SharedFd W → Option (SharedFd W)
  step clone s = one_of s.owners (λ n. record s { owners = s.owners + 1 })
  step (drop ok) s = one_of s.owners (λ n. settle ok (record s { owners = n }))
  step unwrap s = one_of s.owners (λ n. try_unwrap n s)
  -- An owner that closes is a closer from then on.
  step (close_event submit done w ok) s =
      one_of s.owners
        (λ n. close submit done w ok s.state (record s { owners = n; closers = s.closers + 1 }))
  step (poll_event done w ok) s = one_of s.closers (λ k. poll done w ok s)
  step (abandon ok) s = one_of s.closers (λ k. settle ok (record s { closers = k }))

  pub run : List (Event W) → SharedFd W → Option (SharedFd W)
  unfolding step
  run [] s = some s
  run (e ∷ es) s = elim (step e s) [ none ↦ none | some s2 ↦ run es s2 ]
