-- ===== src/Session/Keeps.antt =====
-- `Keeps P m`: the handler `m` keeps the property `P` of the session, whatever its outcome.
use gomc.Prelude.{Bool, true, false, Option, none, some}
use gomc.Session.State.{
  Session, SessionError, Act, ◌>>◌, done, fail, modify, reading, branch, given,
}

pub record Keeps (P : Session → Type 0) (m : Act) : Type 0 where
  pub keeps : (s : Session) → P s → P (m s).1

module _ (P : Session → Type 0) where
  pub done-Keeps : Keeps P done
  unfolding done
  done-Keeps = record { keeps = λ s h. h }

  pub fail-Keeps : (e : SessionError) → Keeps P (fail e)
  unfolding fail
  fail-Keeps e = record { keeps = λ s h. h }

  pub modify-Keeps : (f : Session → Session) → ((s : Session) → P s → P (f s)) → Keeps P (modify f)
  unfolding modify
  modify-Keeps f h = record { keeps = h }

  pub reading-Keeps : (f : Session → Act) → ((s : Session) → Keeps P (f s)) → Keeps P (reading f)
  unfolding reading
  reading-Keeps f h = record { keeps = λ s p. (h s).keeps s p }

  pub branch-Keeps : (b : Bool) (m k : Act) → Keeps P m → Keeps P k → Keeps P (branch b m k)
  unfolding branch
  branch-Keeps true m k hm hk = record { keeps = hm.keeps }
  branch-Keeps false m k hm hk = record { keeps = hk.keeps }

  pub given-Keeps :
      {A : Type 0} (e : SessionError) (o : Option A) (f : A → Act)
      → ((a : A) → Keeps P (f a))
      → Keeps P (given e o f)
  unfolding given
  given-Keeps e none f h = record { keeps = λ s p. p }
  given-Keeps e (some a) f h = record { keeps = (h a).keeps }

  pub then-Keeps : (m k : Act) → Keeps P m → Keeps P k → Keeps P (m >> k)
  unfolding ◌>>◌
  then-Keeps m k hm hk = record { keeps = go }
    where
      go : (s : Session) → P s → P ((m >> k) s).1
      go s p =
          elim (m s).0
            as (λ o.
              let r : Option SessionError × Session = elim o [
                | none ↦ k (m s).1
                | some f ↦ (some f, (m s).1)
              ] in
              P r.1) [ none ↦ hk.keeps (m s).1 (hm.keeps s p) | some f ↦ hm.keeps s p ]

pub ruleset keeps_rules =
    (done-Keeps, fail-Keeps, modify-Keeps, reading-Keeps, branch-Keeps, given-Keeps, then-Keeps)
