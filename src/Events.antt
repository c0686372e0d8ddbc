-- ===== src/Events.antt =====
-- src/domain/EventDispatcher.cpp: who is told of a signal. The locks are not modelled: each operation
-- is one step, and the calls of a dispatch are the callbacks it returns, in order. A token is an
-- `unsigned int`, and is taken here before the counter wraps.
use vehicle_spy.Base.{
  ℕ, ◌+◌, ◌<◌, ◌≡◌, refl, ap, ◌∙◌, ◌≢◌, Bool, true, false, ◌&&◌, List, [], ◌∷◌, ◌++◌, append-nil,
  arith, ◌==◌, if◌then◌else◌, All, All-append,
}

-- A callback is known by a number; 0 is the empty function, which is not called.
pub record Consumer : Type 0 where
  pub callback : ℕ
  pub token : ℕ
  pub active : Bool

pub record Dispatcher : Type 0 where
  pub consumers : List Consumer
  pub next_token : ℕ

abbrev pub new_dispatcher : Dispatcher
new_dispatcher = record { consumers = []; next_token = 1 }

unfoldable pub register_consumer : ℕ → Dispatcher → Dispatcher × ℕ
register_consumer cb d = (
  record d {
    consumers = d.consumers ++ record { callback = cb; token = d.next_token; active = true } ∷ [];
    next_token = d.next_token + 1;
  },
  d.next_token,
)

-- The first active consumer with the token is switched off.
unfoldable pub deactivate : ℕ → List Consumer → List Consumer
deactivate token [] = []
deactivate token (c ∷ cs) =
    let rest = deactivate token cs in
    if c.token == token && c.active then record c { active = false } ∷ cs else c ∷ rest

unfoldable pub unregister_consumer : ℕ → Dispatcher → Dispatcher
unregister_consumer token d = record d { consumers = deactivate token d.consumers }

-- The callbacks of the active consumers, in the order of their registration.
unfoldable pub active_callbacks : List Consumer → List ℕ
active_callbacks [] = []
active_callbacks (c ∷ cs) =
    let rest = active_callbacks cs in if c.active then c.callback ∷ rest else rest

unfoldable pub called : List ℕ → List ℕ
called [] = []
called (cb ∷ cbs) = let rest = called cbs in if cb == 0 then rest else cb ∷ rest

unfoldable pub dispatch : Dispatcher → List ℕ
unfolding active_callbacks called
dispatch d = called (active_callbacks d.consumers)

unfoldable pub clear : Dispatcher → Dispatcher
clear d = record d { consumers = [] }

-- Every token that was given is below the next one.
unfoldable pub IsNumbered : Dispatcher → Type 0
IsNumbered d = All (λ c. c.token < d.next_token) d.consumers

abbrev pub Fresh : ℕ → List Consumer → Type 0
Fresh token = All (λ c. c.token ≢ token)

active_callbacks-append :
    (xs ys : List Consumer)
    → active_callbacks (xs ++ ys) ≡ active_callbacks xs ++ active_callbacks ys
unfolding active_callbacks
active_callbacks-append [] ys = refl
active_callbacks-append (x ∷ xs) ys = ground (arith, active_callbacks-append xs ys)

called-append : (xs ys : List ℕ) → called (xs ++ ys) ≡ called xs ++ called ys
unfolding called
called-append [] ys = refl
called-append (x ∷ xs) ys = ground (arith, called-append xs ys)

-- Switching off a token that was just given leaves the consumers before it as they were.
deactivate-append :
    (token : ℕ) (cs : List Consumer) (c : Consumer)
    → Fresh token cs
    → c.token ≡ token
    → c.active ≡ true
    → deactivate token (cs ++ c ∷ []) ≡ cs ++ record c { active = false } ∷ []
unfolding deactivate
deactivate-append token [] c h e a = ground arith
deactivate-append token (x ∷ cs) c h e a = ground (arith, deactivate-append token cs c h.1 e a)

below-Fresh : (n : ℕ) (cs : List Consumer) → All (λ c. c.token < n) cs → Fresh n cs
below-Fresh n [] h = tt
below-Fresh n (c ∷ cs) h = (ground (arith, h.0), below-Fresh n cs h.1)

called_one : (cb : ℕ) → cb ≢ 0 → called (cb ∷ []) ≡ cb ∷ []
unfolding called
called_one cb n = ground arith

-- A registered callback that is not empty is called last, behind all that were called before.
pub dispatch-register_consumer :
    (cb : ℕ) (d : Dispatcher) → cb ≢ 0 → dispatch (register_consumer cb d).0 ≡ dispatch d ++ cb ∷ []
unfolding dispatch register_consumer
dispatch-register_consumer cb d n =
    ap called (
      active_callbacks-append d.consumers
        (record { callback = cb; token = d.next_token; active = true } ∷ []))
    ∙ called-append (active_callbacks d.consumers) (cb ∷ [])
    ∙ ap (λ q. dispatch d ++ q) (called_one cb n)

-- Unregistering the token that a registration gave undoes it for every dispatch that follows.
pub unregister_consumer-register_consumer :
    (cb : ℕ) (d : Dispatcher)
    → IsNumbered d
    → let registered = register_consumer cb d in
      dispatch (unregister_consumer registered.1 registered.0) ≡ dispatch d
unfolding dispatch register_consumer unregister_consumer IsNumbered
unregister_consumer-register_consumer cb d h =
    ap (λ q. called (active_callbacks q))
      (deactivate-append d.next_token d.consumers
        (record { callback = cb; token = d.next_token; active = true })
        (below-Fresh d.next_token d.consumers h) refl refl)
    ∙ ap called (
        active_callbacks-append d.consumers
          (record { callback = cb; token = d.next_token; active = false } ∷ [])
        ∙ append-nil (active_callbacks d.consumers))

-- What a dispatcher is asked to do between its dispatches.
pub data Request : Type 0 where
  register : ℕ → Request
  unregister : ℕ → Request
  clear_all : Request

abbrev pub serve : Request → Dispatcher → Dispatcher
serve (register cb) d = (register_consumer cb d).0
serve (unregister token) d = unregister_consumer token d
serve clear_all d = clear d

below_suc : (n : ℕ) (cs : List Consumer) → All (λ c. c.token < n) cs → All (λ c. c.token < n + 1) cs
below_suc n [] h = tt
below_suc n (c ∷ cs) h = (omega (arith, h.0), below_suc n cs h.1)

deactivate-below :
    (token n : ℕ) (cs : List Consumer)
    → All (λ c. c.token < n) cs
    → All (λ c. c.token < n) (deactivate token cs)
unfolding deactivate
deactivate-below token n [] h = tt
deactivate-below token n (c ∷ cs) h = ground (arith, h.0, h.1, deactivate-below token n cs h.1)

-- Tokens stay below the next one, so a token is never given twice.
pub serve-IsNumbered : (q : Request) (d : Dispatcher) → IsNumbered d → IsNumbered (serve q d)
unfolding IsNumbered register_consumer unregister_consumer clear
serve-IsNumbered (register cb) d h =
    All-append (λ c. c.token < d.next_token + 1) d.consumers
      (record { callback = cb; token = d.next_token; active = true } ∷ [])
      (below_suc d.next_token d.consumers h) (omega arith, tt)
serve-IsNumbered (unregister token) d h = deactivate-below token d.next_token d.consumers h
serve-IsNumbered clear_all d h = tt
