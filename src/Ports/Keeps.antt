-- ===== src/Ports/Keeps.antt =====
-- Actions that leave the tables and the recorded deliveries alone.
use notify_hub.Base.{◌≡◌, refl, ◌∙◌, Text}
use notify_hub.Ports.{Io, ◌>>=◌, try_catch, Outcome, ok, raise, World}

pub record Keeps {A : Type 0} (m : Io A) : Type 0 where
  pub db : (w : World) → (m w).1.db ≡ w.db
  pub deliveries : (w : World) → (m w).1.deliveries ≡ w.deliveries

module _ {A B : Type 0} (m : Io A) (f : A → Io B) (k : Keeps m) (ks : (a : A) → Keeps (f a)) where
  pub Keeps-bind : Keeps (m >>= f)
  Keeps-bind = record {
    db = λ w. let (r, w') = m w in after_db r w' ∙ k.db w;
    deliveries = λ w. let (r, w') = m w in after_deliveries r w' ∙ k.deliveries w;
  }
    where
      after_db : (r : Outcome A) (w : World) → (((λ (w' : World). (r, w')) >>= f) w).1.db ≡ w.db
      after_db (ok a) w = (ks a).db w
      after_db (raise e) w = refl

      after_deliveries :
          (r : Outcome A) (w : World)
          → (((λ (w' : World). (r, w')) >>= f) w).1.deliveries ≡ w.deliveries
      after_deliveries (ok a) w = (ks a).deliveries w
      after_deliveries (raise e) w = refl

  pub Keeps-try_catch : (g : Text → Io B) → ((e : Text) → Keeps (g e)) → Keeps (try_catch m f g)
  Keeps-try_catch g kg = record {
    db = λ w. let (r, w') = m w in after_db r w' ∙ k.db w;
    deliveries = λ w. let (r, w') = m w in after_deliveries r w' ∙ k.deliveries w;
  }
    where
      after_db :
          (r : Outcome A) (w : World) → (try_catch (λ (w' : World). (r, w')) f g w).1.db ≡ w.db
      after_db (ok a) w = (ks a).db w
      after_db (raise e) w = (kg e).db w

      after_deliveries :
          (r : Outcome A) (w : World)
          → (try_catch (λ (w' : World). (r, w')) f g w).1.deliveries ≡ w.deliveries
      after_deliveries (ok a) w = (ks a).deliveries w
      after_deliveries (raise e) w = (kg e).deliveries w
