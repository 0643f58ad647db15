-- ===== src/Redis/Frame.antt =====
-- What an action over the connection leaves alone, whatever becomes of its round trips: one rule for
-- each way to build an action.
use morf.Prelude.{◌≡◌, refl, ◌∙◌, Bool, true, false, if◌then◌else◌}
use morf.Redis.{
  Net, World, Reply, ok, err, Error, pure, raise, trip, write, attempt, ◌>>=◌, trip_cases, continue,
}

-- `m` never changes what `f` reads of the server
pub record Keeps {S A B : Type 0} (f : S → B) (m : Net S A) : Type 0 where
  pub at : (w : World S) → f (m w).1.store ≡ f w.store

module _ {S A B : Type 0} {f : S → B} where
  pub Keeps-pure : (a : A) → Keeps f (pure a)
  Keeps-pure a = record { at = λ w. refl }

  pub Keeps-raise : (e : Error) → Keeps {A = A} f (raise e)
  Keeps-raise e = record { at = λ w. refl }

  pub Keeps-trip : (cmd : S → A × S) → ((s : S) → f (cmd s).1 ≡ f s) → Keeps f (trip cmd)
  Keeps-trip cmd h = record {
    at = λ w.
        trip_cases (λ p. f p.1.store ≡ f w.store) cmd w (λ fs. h w.store) (λ fs. refl)
          (λ fs. h w.store);
  }

  pub Keeps-read : (g : S → A) → Keeps f (trip (λ s. (g s, s)))
  Keeps-read g = Keeps-trip (λ s. (g s, s)) (λ s. refl)

  pub Keeps-attempt : (m : Net S A) → Keeps f m → Keeps f (attempt m)
  Keeps-attempt m k = record { at = λ w. k.at w }

  pub Keeps-if : (b : Bool) (m n : Net S A) → Keeps f m → Keeps f n → Keeps f (if b then m else n)
  Keeps-if true m n km kn = km
  Keeps-if false m n km kn = kn

module _ {S B : Type 0} {f : S → B} where
  pub Keeps-write : (g : S → S) → ((s : S) → f (g s) ≡ f s) → Keeps f (write g)
  Keeps-write g h = Keeps-trip (λ s. (tt, g s)) h

module _ {S A C B : Type 0} {f : S → B} where
  resume :
      (k : A → Net S C) (b : B) (r : Reply A) (w : World S)
      → ((a : A) → Keeps f (k a))
      → f w.store ≡ b
      → f (continue r k w).1.store ≡ b
  resume k b (ok a) w kk e = (kk a).at w ∙ e
  resume k b (err x) w kk e = e

  pub Keeps-bind :
      (m : Net S A) (k : A → Net S C) → Keeps f m → ((a : A) → Keeps f (k a)) → Keeps f (m >>= k)
  Keeps-bind m k km kk = record { at = λ w. resume k (f w.store) (m w).0 (m w).1 kk (km.at w) }

pub ruleset keeps_rules =
    (Keeps-pure, Keeps-raise, Keeps-read, Keeps-write, Keeps-attempt, Keeps-bind, Keeps-if)
