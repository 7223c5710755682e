-- ===== src/Sidecar/Handler.antt =====
-- pkg/sidecar/sidecar_handler.go: what the sidecar does for one instance. Its calls, of the network
-- and of the sync service, are a log; what each of them answers may depend on all that was done
-- before. The texts that the handler puts before an error are left out.
use mathlib.Core.List.{append_assoc, append-nil}
use testground.Base.{
  ◌≡◌, refl, ap, ◌∙◌, ◌⊎◌, inl, inr, String, Bool, true, false, Option, none, some, List, [], ◌∷◌,
  ◌++◌, str_eq, if◌then◌else◌, Option-cases,
}
use testground.Sidecar.{Call, ◌then_call◌}

-- network.Config: the rest is the text of its other fields, which is empty where they are zero
pub record NetworkConfig : Type 0 where
  pub network : String
  pub enable : Bool
  pub rest : String

pub data Effect : Type 0 where
  configured : NetworkConfig → Effect  -- ConfigureNetwork
  ready : Effect  -- SignalAndWait of "network-initialized"
  subscribed : Effect
  signalled : String → Effect  -- SignalEntry of a callback state
  closed : Effect

-- what the loop receives; a change has its callback state beside the other fields
pub data Event : Type 0 where
  change : NetworkConfig → String → Event
  channel_closed : Event
  canceled : Event

-- the configuration of the data network that the handler starts with
abbrev pub initial_config : NetworkConfig
initial_config = record { network = "default"; enable = true; rest = "" }

module _ (answer : List Effect → Option String) where
  -- a call, which is logged whatever it answers
  abbrev pub do_call : Effect → Call (List Effect)
  do_call e log = (answer (log ++ e ∷ []), log ++ e ∷ [])

  abbrev pub no_call : Call (List Effect)
  no_call log = (none, log)

  abbrev callback : String → Call (List Effect)
  callback state = if str_eq state "" then no_call else do_call (signalled state)

  -- the loop over the changes
  unfoldable pub apply_changes : List Event → Call (List Effect)
  apply_changes [] log = (none, log)
  apply_changes (canceled ∷ es) log = (none, log)
  apply_changes (channel_closed ∷ es) log = (none, log)
  apply_changes (change cfg state ∷ es) log =
      (do_call (configured cfg) then_call (callback state then_call apply_changes es)) log

  -- the deferred Close, whose error is logged
  abbrev close_after : Option String × List Effect → Option String × List Effect
  close_after (e, log) = (e, log ++ closed ∷ [])

  -- handler
  unfoldable pub handler : List Event → Option String × List Effect
  unfolding apply_changes
  handler es = close_after (
      (do_call (configured initial_config)
          then_call (do_call ready then_call (do_call subscribed then_call apply_changes es)))
        [])

  -- the calls one after the other, up to the first that fails
  unfoldable pub in_order : List Effect → Call (List Effect)
  in_order [] log = (none, log)
  in_order (e ∷ es) log = (do_call e then_call in_order es) log

abbrev signal : String → List Effect → List Effect
signal state rest = if str_eq state "" then rest else signalled state ∷ rest

-- what is wanted of the loop: each change, and then the signal that it asks for
abbrev pub wanted : List Event → List Effect
wanted [] = []
wanted (canceled ∷ es) = []
wanted (channel_closed ∷ es) = []
wanted (change cfg state ∷ es) = configured cfg ∷ signal state (wanted es)

-- all that is wanted of the handler before it closes the instance
abbrev pub plan : List Event → List Effect
plan es = configured initial_config ∷ ready ∷ subscribed ∷ wanted es

module _ (answer : List Effect → Option String) where
  then-same :
      (e : Option String) (k : List Effect) (f g : Call (List Effect))
      → ((l : List Effect) → ◌≡◌ {A = Option String × List Effect} (f l) (g l))
      → ◌≡◌ {A = Option String × List Effect}
          (elim e [ none ↦ f k | some x ↦ (some x, k) ])
          (elim e [ none ↦ g k | some x ↦ (some x, k) ])
  then-same none k f g h = h k
  then-same (some x) k f g h = refl

  then-call :
      (e : Effect) (f g : Call (List Effect))
      → ((l : List Effect) → ◌≡◌ {A = Option String × List Effect} (f l) (g l))
      → (l : List Effect)
      → ◌≡◌ {A = Option String × List Effect}
          ((do_call answer e then_call f) l)
          ((do_call answer e then_call g) l)
  then-call e f g h l = then-same (answer (l ++ e ∷ [])) (l ++ e ∷ []) f g h

  signal_step :
      (state : String) (es : List Event) (b : Bool) (l : List Effect)
      → ((k : List Effect)
          → ◌≡◌ {A = Option String × List Effect}
              (apply_changes answer es k)
              (in_order answer (wanted es) k))
      → ◌≡◌ {A = Option String × List Effect}
          (((if b then no_call answer else do_call answer (signalled state))
              then_call apply_changes answer es)
            l)
          (in_order answer (if b then wanted es else signalled state ∷ wanted es) l)
  unfolding in_order
  signal_step state es true l ih = ih l
  signal_step state es false l ih =
      then-call (signalled state) (apply_changes answer es) (in_order answer (wanted es)) ih l

  apply_changes_lem :
      (es : List Event) (log : List Effect)
      → ◌≡◌ {A = Option String × List Effect}
          (apply_changes answer es log)
          (in_order answer (wanted es) log)
  unfolding apply_changes in_order
  apply_changes_lem [] log = refl
  apply_changes_lem (canceled ∷ es) log = refl
  apply_changes_lem (channel_closed ∷ es) log = refl
  apply_changes_lem (change cfg state ∷ es) log =
      then-call (configured cfg) (callback answer state then_call apply_changes answer es)
        (in_order answer (signal state (wanted es)))
        (λ l. signal_step state es (str_eq state "") l (apply_changes_lem es)) log

  -- the calls all succeed, or those up to one that fails are made
  abbrev Ran : List Effect → List Effect → Option String × List Effect → Type 0
  Ran todo log r =
      ◌≡◌ {A = Option String × List Effect} r (none, log ++ todo)
      ⊎ ((e : String) × (made left : List Effect) × (todo ≡ made ++ left)
          × (answer (log ++ made) ≡ some e)
          × ◌≡◌ {A = Option String × List Effect} r (some e, log ++ made))

  in_order_cases : (todo log : List Effect) → Ran todo log (in_order answer todo log)
  unfolding in_order
  in_order_cases [] log = inl (rw (append-nil log) refl)
  in_order_cases (e ∷ es) log = elim (Option-cases (answer (log ++ e ∷ []))) [
    | inl good ↦ rw good (more (in_order_cases es (log ++ e ∷ [])))
    | inr (x, bad) ↦ rw bad (inr (x, e ∷ [], es, refl, bad, refl))
  ]
    where
      more : {r : Option String × List Effect} → Ran es (log ++ e ∷ []) r → Ran (e ∷ es) log r
      more (inl all) = inl (all ∙ rw (append_assoc log (e ∷ []) es) refl)
      more (inr (x, made, left, split, fails, ran)) =
          let same = append_assoc log (e ∷ []) made in
          inr (x, e ∷ made, left, ap (◌∷◌ e) split, rw (← same) fails, ran ∙ rw same refl)

  handler_lem :
      (es : List Event)
      → ◌≡◌ {A = Option String × List Effect}
          (handler answer es)
          (close_after answer (in_order answer (plan es) []))
  unfolding handler in_order
  handler_lem es = ap (close_after answer) (
      then-call (configured initial_config)
        (do_call answer ready
          then_call (do_call answer subscribed then_call apply_changes answer es))
        (in_order answer (ready ∷ subscribed ∷ wanted es))
        (then-call ready (do_call answer subscribed then_call apply_changes answer es)
          (in_order answer (subscribed ∷ wanted es))
          (then-call subscribed (apply_changes answer es) (in_order answer (wanted es))
            (apply_changes_lem es)))
        [])

  -- The handler of an instance makes its calls in the order of the plan: the default network,
  -- enabled, the two calls of the sync service, and then each change with its configuration,
  -- followed by the signal that it asks for. It makes all of them and returns nil, or stops at the
  -- first that fails and returns its error; in both cases it then closes the instance, once.
  pub handler_correct :
      (es : List Event)
      → ◌≡◌ {A = Option String × List Effect} (handler answer es) (none, plan es ++ closed ∷ [])
        ⊎ ((e : String) × (made left : List Effect) × (plan es ≡ made ++ left)
            × (answer made ≡ some e)
            × ◌≡◌ {A = Option String × List Effect}
                (handler answer es)
                (some e, made ++ closed ∷ []))
  handler_correct es = elim (in_order_cases (plan es) []) [
    | inl all ↦ inl (handler_lem es ∙ ap (close_after answer) all)
    | inr (e, made, left, split, fails, ran) ↦
        inr (e, made, left, split, fails, handler_lem es ∙ ap (close_after answer) ran)
  ]
