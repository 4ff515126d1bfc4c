-- ===== src/World/Leaves.antt =====
-- What an action leaves unchanged, one rule for each way to build an action.
use cpdn_control.Prelude.{
  ◌≡◌, refl, sym, ap, ◌∙◌, Bool, true, false, Option, none, some, ◌∷◌, if◌then◌else◌,
}
use cpdn_control.World.{
  BoincStatus, ChildProcessHandle, World, Event, began_critical_section, ended_critical_section,
  submitted, finished, polled_status, Outside, History, M, ◌>>=◌, pure, emit, call, get_task,
  get_status, put_child, boinc_get_status,
}

-- Wherever `m` ends, `f` of the world is what it was.
pub record Leaves {A X : Type 0} (f : World → X) (m : M A) : Type 0 where
  pub at : (w w' : World) (a : A) → m w ≡ some (a, w') → f w' ≡ f w

-- The two parts of an action that ended.
pub >>=-eq-some :
    {A B : Type 0} (m : M A) (k : A → M B) (w w' : World) (b : B)
    → (m >>= k) w ≡ some (b, w')
    → (a : A) × (v : World) × (m w ≡ some (a, v)) × (k a v ≡ some (b, w'))
unfolding ◌>>=◌
>>=-eq-some {A} {B} m k w w' b = go (m w)
  where
    go :
        (r : Option (A × World))
        → (elim r [ none ↦ none | some (a, v) ↦ k a v ]) ≡ some (b, w')
        → (a : A) × (v : World) × (r ≡ some (a, v)) × (k a v ≡ some (b, w'))
    go none e = cc
    go (some (a, v)) e = (a, v, refl, e)

-- All events but the uploads, the ends of the critical sections, and the end of the task.
abbrev pub IsQuiet : Event → Type 0
IsQuiet began_critical_section = ⊥
IsQuiet ended_critical_section = ⊥
IsQuiet (submitted name) = ⊥
IsQuiet (finished code) = ⊥
IsQuiet _ = Unit

abbrev pub with_history : World → History → World
with_history w h = record w { history = h }

-- `f` depends neither on quiet events, nor on the client's status, nor on the child's handle.
pub record IsBlind {X : Type 0} (f : World → X) : Type 0 where
  pub quiet : (e : Event) (w : World) → IsQuiet e → f (with_history w (e ∷ w.history)) ≡ f w
  pub status : (s : BoincStatus) (w : World) → f (record w { client_status = s }) ≡ f w
  pub child :
      (c : ChildProcessHandle) (w : World)
      → f (record w { task = record w.task { child_process = c } }) ≡ f w

ended_at :
    {A X : Type 0} (f : World → X) (a b : A) (v w : World)
    → ◌≡◌ {A = Option (A × World)} (some (a, v)) (some (b, w))
    → f w ≡ f v
ended_at f a b v w e = let p : v ≡ w = cc in ap f (sym p)

module _ {X : Type 0} {f : World → X} where
  pub Leaves-pure : {A : Type 0} (a : A) → Leaves f (pure a)
  Leaves-pure a = record { at = λ w w' b e. ended_at f a b w w' e }

  pub Leaves-bind :
      {A B : Type 0} (m : M A) (k : A → M B)
      → Leaves f m
      → ((a : A) → Leaves f (k a))
      → Leaves f (m >>= k)
  Leaves-bind m k lm lk = record {
    at = λ w w' b e.
        let (a, v, p, q) = >>=-eq-some m k w w' b e in (lk a).at v w' b q ∙ lm.at w v a p;
  }

  pub Leaves-if :
      {A : Type 0} (b : Bool) (m n : M A) → Leaves f m → Leaves f n → Leaves f (if b then m else n)
  Leaves-if true m n lm ln = lm
  Leaves-if false m n lm ln = ln

  pub Leaves-get_task : Leaves f get_task
  unfolding get_task
  Leaves-get_task = record { at = λ w w' b e. ended_at f _ b w w' e }

  pub Leaves-get_status : Leaves f get_status
  unfolding get_status
  Leaves-get_status = record { at = λ w w' b e. ended_at f _ b w w' e }

  module _ (blind : IsBlind f) where
    pub Leaves-emit : (e : Event) → IsQuiet e → Leaves f (emit e)
    unfolding emit
    Leaves-emit e q = record {
      at = λ w w' b p. ended_at f _ b (with_history w (e ∷ w.history)) w' p ∙ blind.quiet e w q;
    }

    pub Leaves-call :
        {A : Type 0} (answer : History → A) (e : Event) → IsQuiet e → Leaves f (call answer e)
    unfolding call
    Leaves-call answer e q = record {
      at = λ w w' b p.
          ended_at f (answer w.history) b (with_history w (e ∷ w.history)) w' p ∙ blind.quiet e w q;
    }

    pub Leaves-put_child : (c : ChildProcessHandle) → Leaves f (put_child c)
    unfolding put_child
    Leaves-put_child c = record { at = λ w w' b p. ended_at f _ b _ w' p ∙ blind.child c w }

    pub Leaves-boinc_get_status : (o : Outside) → Leaves f (boinc_get_status o)
    unfolding boinc_get_status
    Leaves-boinc_get_status o = record {
      at = λ w w' b p.
          ended_at f _ b _ w' p
          ∙ blind.quiet polled_status (record w { client_status = o.status w.history }) tt
          ∙ blind.status (o.status w.history) w;
    }
