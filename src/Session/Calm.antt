-- ===== src/Session/Calm.antt =====
-- `Calm P m`: the handler `m` ends in no run-time panic on a session with the property `P`.
use gomc.Prelude.{◌≡◌, refl, Bool, true, false, Option, none, some, inl, inr, Bool-cases}
use gomc.Session.State.{
  Session, SessionError, Act, HubRequest, ◌>>◌, done, fail, modify, reading, branch, given, request,
}
use gomc.Session.State.{panics, Deps, send}
use gomc.Packet.Clientbound.{Clientbound}
use gomc.Session.Keeps.{Keeps}

pub record Calm (P : Session → Type 0) (m : Act) : Type 0 where
  pub calm : (s : Session) → P s → panics (m s).0 ≡ false

-- Every session.
abbrev pub Any : Session → Type 0
Any s = Unit {0}

pub Any-Keeps : (m : Act) → Keeps Any m
Any-Keeps m = record { keeps = λ s h. tt }

module _ (P : Session → Type 0) where
  pub Any-Calm : (m : Act) → Calm Any m → Calm P m
  Any-Calm m h = record { calm = λ s p. h.calm s tt }

  pub done-Calm : Calm P done
  unfolding done panics
  done-Calm = record { calm = λ s p. refl }

  pub fail-Calm : (e : SessionError) → panics (some e) ≡ false → Calm P (fail e)
  unfolding fail
  fail-Calm e h = record { calm = λ s p. h }

  pub modify-Calm : (f : Session → Session) → Calm P (modify f)
  unfolding modify panics
  modify-Calm f = record { calm = λ s p. refl }

  pub request-Calm : (q : HubRequest) → Calm P (request q)
  unfolding request panics
  request-Calm q = record { calm = λ s p. refl }

  pub reading-Calm : (f : Session → Act) → ((s : Session) → Calm P (f s)) → Calm P (reading f)
  unfolding reading
  reading-Calm f h = record { calm = λ s p. (h s).calm s p }

  pub branch-Calm : (b : Bool) (m k : Act) → Calm P m → Calm P k → Calm P (branch b m k)
  unfolding branch
  branch-Calm true m k hm hk = record { calm = hm.calm }
  branch-Calm false m k hm hk = record { calm = hk.calm }

  pub given-Calm :
      {A : Type 0} (e : SessionError) (o : Option A) (f : A → Act)
      → panics (some e) ≡ false
      → ((a : A) → Calm P (f a))
      → Calm P (given e o f)
  unfolding given
  given-Calm e none f h hf = record { calm = λ s p. h }
  given-Calm e (some a) f h hf = record { calm = (hf a).calm }

  pub then-Calm : (m k : Act) → Keeps P m → Calm P m → Calm P k → Calm P (m >> k)
  unfolding ◌>>◌
  then-Calm m k kept hm hk = record { calm = λ s p. go s p (m s).0 (hm.calm s p) }
    where
      go :
          (s : Session)
          → P s
          → (o : Option SessionError) → panics o ≡ false
          → let r : Option SessionError × Session = elim o [
            | none ↦ k (m s).1
            | some f ↦ (some f, (m s).1)
          ] in
            panics r.0 ≡ false
      go s p none h = hk.calm (m s).1 (kept.keeps s p)
      go s p (some f) h = h

  pub send-Calm : (d : Deps) (p : Clientbound) → Calm P (send d p)
  unfolding send panics
  send-Calm d p = record {
    calm = λ s h. elim (Bool-cases (d.accepts s.conn)) [ inl e ↦ rw e refl | inr e ↦ rw e refl ];
  }

pub ruleset calm_rules = (
  done-Calm, fail-Calm, modify-Calm, request-Calm, reading-Calm, branch-Calm, given-Calm, then-Calm,
  send-Calm,
)
