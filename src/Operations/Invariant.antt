-- ===== src/Operations/Invariant.antt =====
-- The invariant of the operation coordinator, kept by every call.
use misgeret.Base.{
  ℕ, ◌+◌, ◌<◌, ◌≡◌, refl, sym, ◌∙◌, ap, Bool, true, false, Option, none, some, List, [], ◌∷◌, ◌++◌,
  arith, ◌==◌, if◌then◌else◌, find?, length, length-append, Bool-cases, inl, inr,
}
use misgeret.Operations.{
  OperationKind, OperationState, Held, Lease, Coordinator, init, state, tell_all, emit_state,
  notify_idle, grant, begin_with, try_begin, has_token, mark, release_lease, add_waiter, end_active,
  release, wait_for_idle, begin_shutdown, is_listed, add_listener, delete_listener, subscribe,
  unsubscribe, Call, begins, releases, waits, shuts, subscribes, unsubscribes, step, run,
}

-- What the leases that were not released yet hold.
unfoldable pub live : List Lease → List Held
live [] = []
live (l ∷ ls) = if l.released then live ls else l.held ∷ live ls

abbrev pub held_list : Option Held → List Held
held_list none = []
held_list (some h) = h ∷ []

-- The last state that a listener was told.
unfoldable pub last_told : ℕ → List (ℕ × OperationState) → Option OperationState
last_told x [] = none
last_told x ((l, st) ∷ log) = if l == x then some st else last_told x log

-- The newest lease has the greatest token, and all are below `n`.
abbrev pub Fresh : ℕ → List Lease → Type 0
Fresh n [] = Unit
Fresh n (l ∷ ls) = (l.held.token < n) × Fresh l.held.token ls

pub record IsSound (c : Coordinator) : Type 0 where
  pub one_lease : live c.leases ≡ held_list c.active
  pub fresh : Fresh c.next_token c.leases
  pub no_idle_waiter : c.active ≡ none → c.idle_waiters ≡ []
  pub all_promises : length c.idle_waiters + length c.resolved ≡ c.next_waiter

abbrev pub IsInformed : Coordinator → Type 0
IsInformed c = (x : ℕ) → is_listed x c.listeners ≡ true → last_told x c.told ≡ some (state c)

pub record IsConsistent (c : Coordinator) : Type 0 where
  pub sound : IsSound c
  pub informed : IsInformed c

module _ (x : ℕ) where
  last_told-tell_all_absent :
      (ls : List ℕ) (st : OperationState) (log : List (ℕ × OperationState))
      → last_told x log ≡ some st
      → last_told x (tell_all ls st log) ≡ some st
  unfolding last_told tell_all
  last_told-tell_all_absent [] st log h = h
  last_told-tell_all_absent (l ∷ ls) st log h =
      last_told-tell_all_absent ls st ((l, st) ∷ log) (ground arith)

  last_told-tell_all :
      (ls : List ℕ) (st : OperationState) (log : List (ℕ × OperationState))
      → is_listed x ls ≡ true
      → last_told x (tell_all ls st log) ≡ some st
  unfolding last_told tell_all is_listed
  last_told-tell_all [] st log h = cc
  last_told-tell_all (l ∷ ls) st log h = elim (Bool-cases (x == l)) [
    | inl e ↦ last_told-tell_all_absent ls st ((l, st) ∷ log) (ground arith)
    | inr e ↦ last_told-tell_all ls st ((l, st) ∷ log) (ground arith)
  ]

  is_listed-append :
      (y : ℕ) (ls : List ℕ) → is_listed x (ls ++ y ∷ []) ≡ (if x == y then true else is_listed x ls)
  unfolding is_listed
  is_listed-append y [] = ground arith
  is_listed-append y (l ∷ ls) = ground (arith, is_listed-append y ls)

  is_listed-delete :
      (y : ℕ) (ls : List ℕ) → is_listed x (delete_listener y ls) ≡ true → is_listed x ls ≡ true
  unfolding is_listed delete_listener
  is_listed-delete y [] h = h
  is_listed-delete y (l ∷ ls) h = ground (arith, is_listed-delete y ls)

  is_listed-add :
      (y : ℕ) (ls : List ℕ)
      → is_listed x (add_listener y ls) ≡ true
      → (x == y) ≡ false
      → is_listed x ls ≡ true
  unfolding add_listener
  is_listed-add y ls h ne = ground (arith, is_listed-append y ls)

-- Releasing one token takes its entries out of what is live.
unfoldable without : ℕ → List Held → List Held
without t [] = []
without t (h ∷ hs) = if h.token == t then without t hs else h ∷ without t hs

live-mark : (t : ℕ) (ls : List Lease) → live (mark t ls) ≡ without t (live ls)
unfolding live mark without
live-mark t [] = refl
live-mark t (l ∷ ls) = ground (arith, live-mark t ls)

Fresh-mark : (t n : ℕ) (ls : List Lease) → Fresh n ls → Fresh n (mark t ls)
unfolding mark
Fresh-mark t n [] h = tt
Fresh-mark t n (l ∷ ls) h = elim (Bool-cases (l.held.token == t)) [
  | inl e ↦ rw e (h.0, Fresh-mark t l.held.token ls h.1)
  | inr e ↦ rw e (h.0, Fresh-mark t l.held.token ls h.1)
]

emit_state-IsInformed : (c : Coordinator) → IsInformed (emit_state c)
unfolding emit_state state
emit_state-IsInformed c x h = last_told-tell_all x c.listeners (state c) c.told h

emit_state-IsConsistent : (c : Coordinator) → IsSound c → IsConsistent (emit_state c)
unfolding emit_state
emit_state-IsConsistent c v = record {
  sound = record {
    one_lease = v.one_lease;
    fresh = v.fresh;
    no_idle_waiter = v.no_idle_waiter;
    all_promises = v.all_promises;
  };
  informed = unfold emit_state in emit_state-IsInformed c;
}

pub IsConsistent-init : IsConsistent init
unfolding live is_listed
IsConsistent-init = record {
  sound = record { one_lease = refl; fresh = tt; no_idle_waiter = λ _. refl; all_promises = refl };
  informed = λ x h. cc;
}

grant-IsSound :
    (c : Coordinator) (k : OperationKind) → c.active ≡ none → IsSound c → IsSound (grant c k)
unfolding grant live
grant-IsSound c k e v = record {
  one_lease =
      ap (◌∷◌ (record { operation = k; token = c.next_token })) (v.one_lease ∙ ap held_list e);
  fresh = (omega arith, v.fresh);
  no_idle_waiter = λ q. cc;
  all_promises = v.all_promises;
}

begin_with-IsConsistent :
    (b : Bool) (o : Option Held) (c : Coordinator) (k : OperationKind)
    → c.active ≡ o
    → IsConsistent c
    → IsConsistent (begin_with b o c k).0
unfolding begin_with
begin_with-IsConsistent true o c k e v = v
begin_with-IsConsistent false (some h) c k e v = v
begin_with-IsConsistent false none c k e v = emit_state-IsConsistent _ (grant-IsSound c k e v.sound)

-- Taking out the one live lease leaves none, and another token leaves it alone.
module _ (t : ℕ) (c : Coordinator) (v : IsConsistent c) where
  marked-IsConsistent :
      live (mark t c.leases) ≡ held_list c.active
      → IsConsistent (record c { leases = mark t c.leases })
  unfolding state
  marked-IsConsistent e = record {
    sound = record {
      one_lease = e;
      fresh = Fresh-mark t c.next_token c.leases v.sound.fresh;
      no_idle_waiter = v.sound.no_idle_waiter;
      all_promises = v.sound.all_promises;
    };
    informed = v.informed;
  }

  ended-IsSound :
      live (mark t c.leases) ≡ []
      → IsSound (notify_idle none (record c { leases = mark t c.leases; active = none }))
  unfolding notify_idle
  ended-IsSound e = record {
    one_lease = e;
    fresh = Fresh-mark t c.next_token c.leases v.sound.fresh;
    no_idle_waiter = λ _. refl;
    all_promises = omega (arith, length-append c.idle_waiters c.resolved, v.sound.all_promises);
  }

  live_marked : (o : Option Held) → c.active ≡ o → live (mark t c.leases) ≡ without t (held_list o)
  live_marked o e = live-mark t c.leases ∙ ap (without t) (v.sound.one_lease ∙ ap held_list e)

  end_active-IsConsistent :
      (o : Option Held)
      → c.active ≡ o
      → IsConsistent (end_active o t (record c { leases = mark t c.leases }))
  unfolding end_active without
  end_active-IsConsistent none e = marked-IsConsistent (live_marked none e ∙ ap held_list (sym e))
  end_active-IsConsistent (some h) e = elim (Bool-cases (h.token == t)) [
    | inl same ↦
        rw same (emit_state-IsConsistent _ (ended-IsSound (live_marked (some h) e ∙ (rw same))))
    | inr other ↦
        rw other (marked-IsConsistent (live_marked (some h) e ∙ (rw other) ∙ ap held_list (sym e)))
  ]

  release_lease-IsConsistent : (o : Option Lease) → IsConsistent (release_lease o c t)
  unfolding release_lease
  release_lease-IsConsistent none = v
  release_lease-IsConsistent (some l) = elim (Bool-cases l.released) [
    | inl e ↦ rw e v
    | inr e ↦ rw e (end_active-IsConsistent c.active refl)
  ]

  add_waiter-IsConsistent : (o : Option Held) → c.active ≡ o → IsConsistent (add_waiter o c)
  unfolding add_waiter state
  add_waiter-IsConsistent none e = record {
    sound = record {
      one_lease = v.sound.one_lease;
      fresh = v.sound.fresh;
      no_idle_waiter = v.sound.no_idle_waiter;
      all_promises = omega (arith, v.sound.all_promises);
    };
    informed = v.informed;
  }
  add_waiter-IsConsistent (some h) e = record {
    sound = record {
      one_lease = v.sound.one_lease;
      fresh = v.sound.fresh;
      no_idle_waiter = λ q. cc;
      all_promises = omega (arith, v.sound.all_promises);
    };
    informed = v.informed;
  }

  subscribe-IsConsistent : (x : ℕ) → IsConsistent (subscribe c x)
  unfolding subscribe state last_told
  subscribe-IsConsistent x = record {
    sound = record {
      one_lease = v.sound.one_lease;
      fresh = v.sound.fresh;
      no_idle_waiter = v.sound.no_idle_waiter;
      all_promises = v.sound.all_promises;
    };
    informed = λ y h. ground (arith, v.informed y, is_listed-add y x c.listeners h);
  }

  unsubscribe-IsConsistent : (x : ℕ) → IsConsistent (unsubscribe c x)
  unfolding unsubscribe state
  unsubscribe-IsConsistent x = record {
    sound = record {
      one_lease = v.sound.one_lease;
      fresh = v.sound.fresh;
      no_idle_waiter = v.sound.no_idle_waiter;
      all_promises = v.sound.all_promises;
    };
    informed = λ y h. v.informed y (is_listed-delete y x c.listeners h);
  }

closed-IsSound : (c : Coordinator) → IsSound c → IsSound (record c { closing = true })
closed-IsSound c v = record {
  one_lease = v.one_lease;
  fresh = v.fresh;
  no_idle_waiter = v.no_idle_waiter;
  all_promises = v.all_promises;
}

wait_for_idle-IsConsistent : (c : Coordinator) → IsConsistent c → IsConsistent (wait_for_idle c)
unfolding wait_for_idle
wait_for_idle-IsConsistent c v = add_waiter-IsConsistent 0 c v c.active refl

pub step-IsConsistent : (c : Coordinator) (x : Call) → IsConsistent c → IsConsistent (step c x)
unfolding step try_begin release begin_shutdown
step-IsConsistent c (begins k) v = begin_with-IsConsistent c.closing c.active c k refl v
step-IsConsistent c (releases t) v = release_lease-IsConsistent t c v (find? (has_token t) c.leases)
step-IsConsistent c waits v = wait_for_idle-IsConsistent c v
step-IsConsistent c shuts v =
    wait_for_idle-IsConsistent _ (emit_state-IsConsistent _ (closed-IsSound c v.sound))
step-IsConsistent c (subscribes x) v = subscribe-IsConsistent 0 c v x
step-IsConsistent c (unsubscribes x) v = unsubscribe-IsConsistent 0 c v x

-- From a consistent coordinator, every sequence of calls leads to a consistent one: the leases that
-- were not released are exactly the active operation's (so there is one at most), tokens are fresh,
-- no promise waits while nothing is active, every promise waits or was resolved, and the last state
-- that each subscribed listener was told is the present one.
pub run-IsConsistent : (c : Coordinator) (xs : List Call) → IsConsistent c → IsConsistent (run c xs)
unfolding run
run-IsConsistent c [] v = v
run-IsConsistent c (x ∷ xs) v = run-IsConsistent (step c x) xs (step-IsConsistent c x v)
