-- ===== src/Server/State/Triples.antt =====
-- Invariants of the session through its methods: `Ensures P Q m` says that `m` keeps P, whatever the
-- outcome, and that a value it returns satisfies Q.
use rtio.Prelude.{Bool, true, false, if◌then◌else◌, Outcome, ok, err, panic}
use rtio.Proto.Types.{Error}
use rtio.Server.State.{Fault, Session, M, after, ◌>>=◌, lift, ignore_error, drop_error}

abbrev pub Returns : {A : Type 0} → (A → Type 0) → Outcome Fault A → Type 0
Returns Q (ok a) = Q a
Returns Q (err e) = Unit
Returns Q panic = Unit

pub record Ensures {A : Type 0} (P : Session → Type 0) (Q : A → Type 0) (m : M A) : Type 0 where
  pub from : (s : Session) → P s → P (m s).1 × Returns Q (m s).0

-- The trivial postcondition.
abbrev pub Any : {A : Type 0} → A → Type 0
Any a = Unit {0}

module _ (P : Session → Type 0) where
  after-Ensures :
      {A B : Type 0} (Q : A → Type 0) (R : B → Type 0) (f : A → M B)
      → ((a : A) → Q a → Ensures P R (f a))
      → (r : Outcome Fault A × Session) → P r.1
      → Returns Q r.0
      → P (after r f).1 × Returns R (after r f).0
  after-Ensures Q R f k (ok a, s) p q = (k a q).from s p
  after-Ensures Q R f k (err e, s) p q = (p, tt)
  after-Ensures Q R f k (panic, s) p q = (p, tt)

  pub bind-Ensures :
      {A B : Type 0} (Q : A → Type 0) (R : B → Type 0) (m : M A) (f : A → M B)
      → Ensures P Q m
      → ((a : A) → Q a → Ensures P R (f a))
      → Ensures P R (m >>= f)
  bind-Ensures Q R m f h k = record {
    from = λ s p. after-Ensures Q R f k (m s) (h.from s p).0 (h.from s p).1;
  }

  pub lift-Ensures : {A : Type 0} (x : Outcome Error A) → Ensures P Any (lift x)
  lift-Ensures (ok a) = record { from = λ s p. (p, tt) }
  lift-Ensures (err e) = record { from = λ s p. (p, tt) }
  lift-Ensures panic = record { from = λ s p. (p, tt) }

  pub if_Ensures :
      {A : Type 0} (Q : A → Type 0) (b : Bool) (m n : M A)
      → Ensures P Q m
      → Ensures P Q n
      → Ensures P Q (if b then m else n)
  if_Ensures Q true m n h k = h
  if_Ensures Q false m n h k = k

  dropped_ensures :
      (r : Outcome Fault (Unit {0}) × Session)
      → P r.1
      → P (drop_error r).1 × Returns Any (drop_error r).0
  dropped_ensures (ok a, s) p = (p, tt)
  dropped_ensures (err e, s) p = (p, tt)
  dropped_ensures (panic, s) p = (p, tt)

  pub ignore-Ensures : (m : M (Unit {0})) → Ensures P Any m → Ensures P Any (ignore_error m)
  ignore-Ensures m h = record { from = λ s p. dropped_ensures (m s) (h.from s p).0 }
