-- ===== src/Core/Blocks/Neutral.antt =====
-- Steps of the core that leave the blocks settled, and how they are put together.
use ps_libmctp_win.Prelude.{
  ℕ, ◌≡◌, ◌∙◌, ap, refl, Bool, true, false, List, ◌∷◌, arith, if◌then◌else◌,
}
use ps_libmctp_win.Core.State.{
  Bus, Mctp, World, Event, M, ◌>>=◌, pure, gets, emit, require, get_bus,
}
use ps_libmctp_win.Core.Blocks.{
  allocs, frees, OwesWith, Frame, frame, Settled, After, After-map, After-done, After-get_bus,
  After-require, After-bind,
}

module _ {A : Type 0} where
  -- The step releases what it allocates, or leaves it with a bus.
  pub record IsNeutral (m : M A) : Type 0 where
    pub run : (k : ℕ) (fr : Frame) (w : World) → OwesWith k fr w → After (λ a. OwesWith k fr) (m w)

  -- The step leaves as many blocks in use as are held, contexts included.
  pub record IsBalanced (m : M A) : Type 0 where
    pub settle : (n : ℕ) (w : World) → Settled n w → After (λ a. Settled n) (m w)

  pub pure-IsNeutral : (a : A) → IsNeutral (pure a)
  pure-IsNeutral a = record { run = λ k fr w h. After-done a w h }

  pub if-IsNeutral :
      (b : Bool) (m n : M A) → IsNeutral m → IsNeutral n → IsNeutral (if b then m else n)
  if-IsNeutral true m n hm hn = hm
  if-IsNeutral false m n hm hn = hn

  pub get_bus-IsNeutral :
      (i : ℕ) (f : Bus → M A) → ((bus : Bus) → IsNeutral (f bus)) → IsNeutral (get_bus i >>= f)
  get_bus-IsNeutral i f h = record {
    run = λ k fr w o. After-get_bus i f w (λ bus at. (h bus).run k fr w o);
  }

  pub require-IsNeutral :
      (b : Bool) (f : Unit {0} → M A) → IsNeutral (f tt) → IsNeutral (require b >>= f)
  require-IsNeutral b f h = record { run = λ k fr w o. After-require b f w (h.run k fr w o) }

  pub gets-IsNeutral :
      {B : Type 0} (g : Mctp → B) (f : B → M A)
      → ((b : B) → IsNeutral (f b))
      → IsNeutral (gets g >>= f)
  gets-IsNeutral g f h = record { run = λ k fr w o. (h (g w.mctp)).run k fr w o }

  pub IsNeutral-IsBalanced : (m : M A) → IsNeutral m → IsBalanced m
  IsNeutral-IsBalanced m h = record {
    settle = λ n w o.
        After-map (λ a w' o'. (ap (λ (g : Frame). g.1) o'.0 ∙ o.0, o'.1))
          (h.run 0 (frame w) w (refl, o.1));
  }

  pub if-IsBalanced :
      (b : Bool) (m n : M A) → IsBalanced m → IsBalanced n → IsBalanced (if b then m else n)
  if-IsBalanced true m n hm hn = hm
  if-IsBalanced false m n hm hn = hn

  pub get_bus-IsBalanced :
      (i : ℕ) (f : Bus → M A) → ((bus : Bus) → IsBalanced (f bus)) → IsBalanced (get_bus i >>= f)
  get_bus-IsBalanced i f h = record {
    settle = λ n w o. After-get_bus i f w (λ bus at. (h bus).settle n w o);
  }

  pub gets-IsBalanced :
      {B : Type 0} (g : Mctp → B) (f : B → M A)
      → ((b : B) → IsBalanced (f b))
      → IsBalanced (gets g >>= f)
  gets-IsBalanced g f h = record { settle = λ n w o. (h (g w.mctp)).settle n w o }

module _ {A B : Type 0} where
  pub bind-IsBalanced :
      (m : M A) (f : A → M B) → IsBalanced m → ((a : A) → IsBalanced (f a)) → IsBalanced (m >>= f)
  bind-IsBalanced m f h next = record {
    settle = λ n w o. After-bind m f w (h.settle n w o) (λ a w' o'. (next a).settle n w' o');
  }

  pub bind-IsNeutral :
      (m : M A) (f : A → M B) → IsNeutral m → ((a : A) → IsNeutral (f a)) → IsNeutral (m >>= f)
  bind-IsNeutral m f h next = record {
    run = λ k fr w o. After-bind m f w (h.run k fr w o) (λ a w' o'. (next a).run k fr w' o');
  }

-- An event that is no allocation and no release.
pub emit-IsNeutral :
    (e : Event)
    → ((tr : List Event) → (allocs (e ∷ tr) ≡ allocs tr) × (frees (e ∷ tr) ≡ frees tr))
    → IsNeutral (emit e)
emit-IsNeutral e same = record {
  run = λ k fr w o. After-done tt _ (o.0, omega (arith, o.1, (same w.trace).0, (same w.trace).1));
}

pub ruleset neutral_rules = (
  pure-IsNeutral, if-IsNeutral, get_bus-IsNeutral, require-IsNeutral, gets-IsNeutral,
  bind-IsNeutral,
)

pub ruleset balanced_rules =
    (IsNeutral-IsBalanced, if-IsBalanced, get_bus-IsBalanced, gets-IsBalanced, bind-IsBalanced)
