-- ===== src/Session/Sending.antt =====
-- The two outcomes of sending a packet, and what comes after each.
use gomc.Prelude.{
  ◌≡◌, ◌≢◌, ◌∙◌, sym, refl, ap, true, false, Option, none, some, inl, inr, Bool-cases, ◌∷◌,
}
use gomc.Frame.Conn.{write_packet}
use gomc.Packet.Clientbound.{Clientbound, encode}
use gomc.Session.State.{Deps, Session, SessionError, Act, ◌>>◌, send}
use gomc.Session.Keeps.{Keeps}

-- The session after a packet that was taken.
abbrev pub pushed : Deps → Clientbound → Session → Session
pushed d p s = record s { conn = write_packet d.zlib (encode p) s.conn; sent = p ∷ s.sent }

module _ (d : Deps) (p : Clientbound) (s : Session) where
  pub send_taken : d.accepts s.conn ≡ true → send d p s ≡ (none, pushed d p s)
  unfolding send
  send_taken h = rw h refl

  pub send_refused : d.accepts s.conn ≡ false → send d p s ≡ (some SessionError.write, s)
  unfolding send
  send_refused h = rw h refl

-- What follows an outcome.
abbrev next : Act → Option SessionError × Session → Option SessionError × Session
next k r = elim r.0 [ none ↦ k r.1 | some e ↦ (some e, r.1) ]

pub then_next : (m k : Act) (s t : Session) → m s ≡ (none, t) → (m >> k) s ≡ k t
unfolding ◌>>◌
then_next m k s t h = ap (next k) h

pub then_stop :
    (m k : Act) (s t : Session) (e : SessionError) → m s ≡ (some e, t) → (m >> k) s ≡ (some e, t)
unfolding ◌>>◌
then_stop m k s t e h = ap (next k) h

-- A packet that may not be taken, and what follows.
pub send_then-case :
    (d : Deps) (Q : Session → Type 0) (p : Clientbound) (k : Act) (s : Session)
    → Q s
    → Q (k (pushed d p s)).1
    → Q ((send d p >> k) s).1
send_then-case d Q p k s refused taken = elim (Bool-cases (d.accepts s.conn)) [
  | inl e ↦ rw (then_next (send d p) k s _ (send_taken d p s e)) taken
  | inr e ↦ rw (then_stop (send d p) k s _ _ (send_refused d p s e)) refused
]

-- What comes of a handler that keeps `P` and a rest that makes of it `Q`, which it implies.
pub then-leads :
    (P Q : Session → Type 0) (m k : Act) (s : Session)
    → Keeps P m
    → ((t : Session) → P t → Q t)
    → ((t : Session) → Q t → Q (k t).1)
    → P s
    → Q ((m >> k) s).1
then-leads P Q m k s hm imply hk h = go (m s).0 refl
  where
    go : (o : Option SessionError) → (m s).0 ≡ o → Q ((m >> k) s).1
    go none e =
        rw (then_next m k s (m s).1 (ap (λ a. (a, (m s).1)) e)) (hk _ (imply _ (hm.keeps s h)))
    go (some f) e =
        rw (then_stop m k s (m s).1 f (ap (λ a. (a, (m s).1)) e)) (imply _ (hm.keeps s h))

pub none≢some : {A : Type 0} (a : A) → none ≢ some a
none≢some a e = cc

-- A handler that succeeds by two that do.
pub then_done :
    (m k : Act) (s : Session) → ((m >> k) s).0 ≡ none → ((m s).0 ≡ none) × ((m >> k) s ≡ k (m s).1)
then_done m k s h = go (m s).0 refl
  where
    go : (o : Option SessionError) → (m s).0 ≡ o → ((m s).0 ≡ none) × ((m >> k) s ≡ k (m s).1)
    go none e = (e, then_next m k s (m s).1 (ap (λ a. (a, (m s).1)) e))
    go (some f) e =
        absurd (
          none≢some f
            (sym h ∙ ap (λ r. r.0) (then_stop m k s (m s).1 f (ap (λ a. (a, (m s).1)) e))))
