-- ===== src/Session/Streamed.antt =====
-- What an update of the streamed columns that succeeds leaves loaded.
use gomc.Prelude.{ℕ, ◌^◌, ◌<◌, ◌≡◌, ◌∙◌, refl, sym, ap, arith, ◌&&◌, ◌||◌, not}
use gomc.Prelude.{List, [], ◌∷◌, Bool, true, false, Option, none, some, inl, inr, Bool-cases}
use gomc.World.Blocks.{same_chunk}
use gomc.Packet.Clientbound.{Clientbound}
use gomc.Session.State.{Deps, Session, SessionError, Act, modify, reading, branch, done, send}
use gomc.Session.State.{given}
use gomc.Session.Chunks
use gomc.Session.Chunks.{has, without}
use gomc.Session.Sending.{then_done}
use gomc.Session.Near.{near, IsInside, square, view-square, has-square}

pub given-some :
    {o : Option (List (ℕ × ℕ))} {keys : List (ℕ × ℕ)} (e : o ≡ some keys) (f : List (ℕ × ℕ) → Act)
    (t : Session)
    → given SessionError.runaway o f t ≡ f keys t
unfolding given
given-some e f t = ap (λ o. given SessionError.runaway o f t) e

-- The same column, by its key.
has-same : (key k : ℕ × ℕ) (ks : List (ℕ × ℕ)) → same_chunk key k ≡ true → has key ks ≡ has k ks
has-same (a, b) (a', b') ks h = ap (λ q. has q ks) (ground arith)

or_swap : (a b c : Bool) → (b || (a || c)) ≡ (a || b || c)
or_swap true true c = refl
or_swap true false c = refl
or_swap false true c = refl
or_swap false false c = refl

without_again : (l w s k : Bool) → (l && (w || not s) && (w || not k)) ≡ (l && (w || not (s || k)))
without_again false w s k = refl
without_again true true s k = refl
without_again true false true k = refl
without_again true false false k = refl

held : (l s : Bool) → (s ≡ true → l ≡ true) → l ≡ (s || l)
held l true h = h refl
held l false h = refl

wanted : (l w s : Bool) → (s ≡ true → w ≡ true) → l ≡ (l && (w || not s))
wanted false w s h = refl
wanted true true s h = refl
wanted true false true h = sym (h refl)
wanted true false false h = refl

unwanted : (l w s : Bool) → (s ≡ true → w ≡ false) → (l && not s) ≡ (l && (w || not s))
unwanted false w s h = refl
unwanted true false s h = refl
unwanted true true true h = sym (h refl)
unwanted true true false h = refl

has-without :
    (key k : ℕ × ℕ) (ks : List (ℕ × ℕ))
    → has key (without k ks) ≡ (has key ks && not (same_chunk key k))
unfolding has without
has-without key k [] = refl
has-without (a, b) (a', b') ((a'', b'') ∷ ks) =
    let rest = has-without (a, b) (a', b') ks in ground arith

module _ (d : Deps) where
  send-loaded : (p : Clientbound) (s : Session) → (send d p s).1.loaded ≡ s.loaded
  unfolding send
  send-loaded p s = elim (Bool-cases (d.accepts s.conn)) [ inl e ↦ rw e refl | inr e ↦ rw e refl ]

  load_column-loaded :
      (key : ℕ × ℕ) (s : Session)
      → (Chunks.load_column d key s).0 ≡ none
      → (Chunks.load_column d key s).1.loaded ≡ key ∷ s.loaded
  unfolding Chunks.load_column modify
  load_column-loaded (x, z) s h =
      let ended = then_done _ _ s h in
      ap (λ r. r.1.loaded) ended.1 ∙ ap (λ ks. (x, z) ∷ ks) (send-loaded _ s)

  unload_column-loaded :
      (key : ℕ × ℕ) (s : Session)
      → (Chunks.unload_column d key s).0 ≡ none
      → (Chunks.unload_column d key s).1.loaded ≡ without key s.loaded
  unfolding Chunks.unload_column modify
  unload_column-loaded (x, z) s h =
      let ended = then_done _ _ s h in
      ap (λ r. r.1.loaded) ended.1 ∙ ap (without (x, z)) (send-loaded _ s)

  -- One column of the first loop, and of the second.
  load_one-has :
      (k key : ℕ × ℕ) (s : Session)
      → (branch (has k s.loaded) done (Chunks.load_column d k) s).0 ≡ none
      → has key (branch (has k s.loaded) done (Chunks.load_column d k) s).1.loaded
        ≡ (same_chunk key k || has key s.loaded)
  unfolding branch done has
  load_one-has k key s h = go (has k s.loaded) refl h
    where
      go :
          (b : Bool)
          → has k s.loaded ≡ b
          → (branch b done (Chunks.load_column d k) s).0 ≡ none
          → has key (branch b done (Chunks.load_column d k) s).1.loaded
            ≡ (same_chunk key k || has key s.loaded)
      go true e h = held (has key s.loaded) (same_chunk key k) λ q. has-same key k s.loaded q ∙ e
      go false e h = ap (has key) (load_column-loaded k s h)

  unload_one-has :
      (want : List (ℕ × ℕ)) (k key : ℕ × ℕ) (s : Session)
      → (branch (has k want) done (Chunks.unload_column d k) s).0 ≡ none
      → has key (branch (has k want) done (Chunks.unload_column d k) s).1.loaded
        ≡ (has key s.loaded && (has key want || not (same_chunk key k)))
  unfolding branch done has
  unload_one-has want k key s h = go (has k want) refl h
    where
      go :
          (b : Bool)
          → has k want ≡ b
          → (branch b done (Chunks.unload_column d k) s).0 ≡ none
          → has key (branch b done (Chunks.unload_column d k) s).1.loaded
            ≡ (has key s.loaded && (has key want || not (same_chunk key k)))
      go true e h =
          wanted (has key s.loaded) (has key want) (same_chunk key k) λ q. has-same key k want q ∙ e
      go false e h =
          ap (has key) (unload_column-loaded k s h)
          ∙ has-without key k s.loaded
          ∙ unwanted (has key s.loaded) (has key want) (same_chunk key k)
              λ q. has-same key k want q ∙ e

  load_columns-has :
      (keys : List (ℕ × ℕ)) (s : Session) (key : ℕ × ℕ)
      → (Chunks.load_columns d keys s).0 ≡ none
      → has key (Chunks.load_columns d keys s).1.loaded ≡ (has key keys || has key s.loaded)
  unfolding Chunks.load_columns has done reading
  load_columns-has [] s key h = refl
  load_columns-has (k ∷ keys) s key h =
      let ended = then_done _ _ s h in
      ap (λ r. has key r.1.loaded) ended.1
      ∙ load_columns-has keys _ key (ap (λ r. r.0) (sym ended.1) ∙ h)
      ∙ ap (λ b. has key keys || b) (load_one-has k key s ended.0)
      ∙ or_swap (same_chunk key k) _ _

  unload_columns-has :
      (want keys : List (ℕ × ℕ)) (s : Session) (key : ℕ × ℕ)
      → (Chunks.unload_columns d want keys s).0 ≡ none
      → has key (Chunks.unload_columns d want keys s).1.loaded
        ≡ (has key s.loaded && (has key want || not (has key keys)))
  unfolding Chunks.unload_columns has done
  unload_columns-has want [] s key h = keep (has key s.loaded) (has key want)
    where
      keep : (l w : Bool) → l ≡ (l && (w || true))
      keep false w = refl
      keep true true = refl
      keep true false = refl
  unload_columns-has want (k ∷ keys) s key h =
      let ended = then_done _ _ s h in
      ap (λ r. has key r.1.loaded) ended.1
      ∙ unload_columns-has want keys _ key (ap (λ r. r.0) (sym ended.1) ∙ h)
      ∙ ap (λ b. b && (has key want || not (has key keys))) (unload_one-has want k key s ended.0)
      ∙ without_again (has key s.loaded) (has key want) (same_chunk key k) (has key keys)

  stream-has :
      (want : List (ℕ × ℕ)) (s : Session) (key : ℕ × ℕ)
      → (Chunks.stream d want s).0 ≡ none
      → has key (Chunks.stream d want s).1.loaded ≡ has key want
  unfolding Chunks.stream reading
  stream-has want s key h =
      let ended = then_done _ _ s h in
      ap (λ r. has key r.1.loaded) ended.1
      ∙ unload_columns-has want _ _ key (ap (λ r. r.0) (sym ended.1) ∙ h)
      ∙ ap (λ b. b && (has key want || not b)) (load_columns-has want s key ended.0)
      ∙ exact (has key want) (has key s.loaded)
    where
      exact : (w l : Bool) → ((w || l) && (w || not (w || l))) ≡ w
      exact true l = refl
      exact false true = refl
      exact false false = refl

  pub update_chunks-has :
      (cx cz : ℕ) (s : Session) (x z : ℕ)
      → IsInside cx
      → IsInside cz
      → x < 2 ^ 32
      → z < 2 ^ 32
      → (Chunks.update_chunks d cx cz s).0 ≡ none
      → has (x, z) (Chunks.update_chunks d cx cz s).1.loaded ≡ (near cx x && near cz z)
  unfolding Chunks.update_chunks modify
  update_chunks-has cx cz s x z hcx hcz hx hz h =
      let all = then_done _ _ s h in
      let first = then_done _ _ s all.0 in
      let streamed = given-some (view-square cx cz hcx hcz) (Chunks.stream d) _ in
      ap (λ r. has (x, z) r.1.loaded) all.1
      ∙ ap (λ r. has (x, z) r.1.loaded) (first.1 ∙ streamed)
      ∙ stream-has (square cx cz) _ (x, z) (ap (λ r. r.0) (sym (first.1 ∙ streamed)) ∙ all.0)
      ∙ has-square cx cz x z hcx.0 hcz.0 hx hz
