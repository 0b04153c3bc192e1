-- ===== src/Session/View.antt =====
-- The columns that a client holds, read off the packets that it was sent, against those that the
-- session takes it to hold.
use gomc.Prelude.{ℕ, ◌≡◌, refl, sym, List, [], ◌∷◌, false, ap}
use gomc.Prelude.{◌∙◌, ◌==◌}
use mathlib.Core.Bool.{true≢false}
use gomc.Packet.Clientbound.{Clientbound}
use gomc.Packet.Registry.{State, state_code}
use gomc.Packet.Joining.{Handshake}
use gomc.Packet.Playing.{SetCarriedItem, SetCreativeModeSlot}
use gomc.Session.State.{Deps, Session, ◌>>◌, modify, reading, branch, done, send}
use gomc.Session.Sending.{send_then-case, then-leads}
use gomc.Session.Chunks
use gomc.Session.Chunks.{without}
use gomc.Session.Login
use gomc.Session.Play
use gomc.Session.Keeps.{Keeps, keeps_rules, then-Keeps, done-Keeps, branch-Keeps}
use gomc.Session.Blind.{Blind, is_column, send-Keeps}
use gomc.Session.Blind.{enter_configuration-Keeps, join_hub-Keeps}

-- What a packet does to the columns that a client holds.
unfoldable pub shown : Clientbound → List (ℕ × ℕ) → List (ℕ × ℕ)
shown (Clientbound.chunk_data p) held = (p.x, p.z) ∷ held
shown (Clientbound.unload_chunk p) held = without (p.x, p.z) held
shown _ held = held

-- Of the packets sent, the latest first.
unfoldable pub columns : List Clientbound → List (ℕ × ℕ)
columns [] = []
columns (p ∷ ps) = shown p (columns ps)

shown_plain : (p : Clientbound) (held : List (ℕ × ℕ)) → is_column p ≡ false → shown p held ≡ held
unfolding shown
shown_plain Clientbound.finish_configuration held h = refl
shown_plain (Clientbound.status_response p) held h = refl
shown_plain (Clientbound.status_pong p) held h = refl
shown_plain (Clientbound.encryption_request p) held h = refl
shown_plain (Clientbound.set_compression p) held h = refl
shown_plain (Clientbound.login_success p) held h = refl
shown_plain (Clientbound.plugin_message p) held h = refl
shown_plain (Clientbound.feature_flags p) held h = refl
shown_plain (Clientbound.known_packs p) held h = refl
shown_plain (Clientbound.registry_data p) held h = refl
shown_plain (Clientbound.update_tags p) held h = refl
shown_plain (Clientbound.login_play p) held h = refl
shown_plain (Clientbound.game_event p) held h = refl
shown_plain (Clientbound.set_center_chunk p) held h = refl
shown_plain (Clientbound.chunk_data p) held h = absurd (true≢false h)
shown_plain (Clientbound.unload_chunk p) held h = absurd (true≢false h)
shown_plain (Clientbound.sync_player_position p) held h = refl
shown_plain (Clientbound.block_changed_ack p) held h = refl

-- In a state, with the columns in step, and none of them before Play.
abbrev pub IsViewed : State → Session → Type 0
IsViewed st s =
    (s.state ≡ st) × ((columns s.sent ≡ s.loaded) × ((state_code st == 4) ≡ false → s.loaded ≡ []))

pub IsViewed-Blind : (st : State) → Blind (IsViewed st)
unfolding columns
IsViewed-Blind st = record {
  sent = λ s c p plain h. (h.0, (shown_plain p (columns s.sent) plain ∙ h.1.0, h.1.1));
  conn = λ s c h. h;
  requested = λ s q h. h;
  profile = λ s name uuid token ps h. h;
  moved = λ s x y z yaw pitch g h. h;
}

module _ (d : Deps) where
  load_column-Keeps : (key : ℕ × ℕ) → Keeps (IsViewed State.play) (Chunks.load_column d key)
  unfolding Chunks.load_column modify columns shown
  load_column-Keeps (x, z) = record {
    keeps = λ s h.
        send_then-case d (IsViewed State.play) _ _ s h
          (h.0, (ap (λ ks. (x, z) ∷ ks) h.1.0, λ e. absurd (true≢false e)));
  }

  unload_column-Keeps : (key : ℕ × ℕ) → Keeps (IsViewed State.play) (Chunks.unload_column d key)
  unfolding Chunks.unload_column modify columns shown
  unload_column-Keeps (x, z) = record {
    keeps = λ s h.
        send_then-case d (IsViewed State.play) _ _ s h
          (h.0, (ap (without (x, z)) h.1.0, λ e. absurd (true≢false e)));
  }

  load_columns-Keeps :
      (keys : List (ℕ × ℕ)) → Keeps (IsViewed State.play) (Chunks.load_columns d keys)
  unfolding Chunks.load_columns
  load_columns-Keeps [] = done-Keeps _
  load_columns-Keeps (key ∷ keys) =
      then-Keeps _ _ _ (search (keeps_rules, load_column-Keeps)) (load_columns-Keeps keys)

  unload_columns-Keeps :
      (want keys : List (ℕ × ℕ)) → Keeps (IsViewed State.play) (Chunks.unload_columns d want keys)
  unfolding Chunks.unload_columns
  unload_columns-Keeps want [] = done-Keeps _
  unload_columns-Keeps want (key ∷ keys) =
      then-Keeps _ _ _ (search (keeps_rules, unload_column-Keeps)) (unload_columns-Keeps want keys)

  pub update_chunks-Keeps : (cx cz : ℕ) → Keeps (IsViewed State.play) (Chunks.update_chunks d cx cz)
  unfolding Chunks.update_chunks Chunks.stream
  update_chunks-Keeps cx cz =
      search
        (
          keeps_rules,
          send-Keeps (IsViewed State.play) (IsViewed-Blind State.play) d,
          load_columns-Keeps,
          unload_columns-Keeps,
        )
        depth 12

-- With no column anywhere.
abbrev pub IsBare : Session → Type 0
IsBare s = (columns s.sent ≡ []) × (s.loaded ≡ [])

abbrev IsBlank : State → Session → Type 0
IsBlank st s = (s.state ≡ st) × IsBare s

IsBare-Blind : Blind IsBare
unfolding columns
IsBare-Blind = record {
  sent = λ s c p plain h. (shown_plain p (columns s.sent) plain ∙ h.0, h.1);
  conn = λ s c h. h;
  requested = λ s q h. h;
  profile = λ s name uuid token ps h. h;
  moved = λ s x y z yaw pitch g h. h;
}

IsBlank-Blind : (st : State) → Blind (IsBlank st)
unfolding columns
IsBlank-Blind st = record {
  sent = λ s c p plain h. (h.0, (shown_plain p (columns s.sent) plain ∙ h.1.0, h.1.1));
  conn = λ s c h. h;
  requested = λ s q h. h;
  profile = λ s name uuid token ps h. h;
  moved = λ s x y z yaw pitch g h. h;
}

-- The columns in step, whatever the state.
abbrev pub IsInStep : Session → Type 0
IsInStep s = IsViewed s.state s

pub viewed-IsInStep : (st : State) (s : Session) → IsViewed st s → IsInStep s
viewed-IsInStep st s h =
    (refl, (h.1.0, λ other. h.1.1 (ap (λ t. state_code t == 4) (sym h.0) ∙ other)))

blank-IsViewed : (st : State) (s : Session) → IsBlank st s → IsViewed st s
blank-IsViewed st s h = (h.0, (h.1.0 ∙ sym h.1.1, λ other. h.1.1))

pub bare-IsInStep : (s : Session) → IsBare s → IsInStep s
bare-IsInStep s h = (refl, (h.0 ∙ sym h.1, λ other. h.1))

-- Before Play there is no column.
pub IsInStep-IsBare : (s : Session) → IsInStep s → (state_code s.state == 4) ≡ false → IsBare s
IsInStep-IsBare s h other = (h.1.0 ∙ h.1.1 other, h.1.1 other)

module _ (d : Deps) where
  reset_view-IsBlank : (st : State) (s : Session) → IsBlank st s → IsBlank st (Play.reset_view s)
  unfolding Play.reset_view
  reset_view-IsBlank st s h = (h.0, (h.1.0, refl))

  announce-IsBlank : (st : State) → Keeps (IsBlank st) (Play.announce d)
  unfolding Play.announce Play.start_play Play.login_play
  announce-IsBlank st =
      search (keeps_rules, send-Keeps (IsBlank st) (IsBlank-Blind st) d, reset_view-IsBlank st)
        depth 12

  at_spawn-IsViewed : (s : Session) → IsViewed State.play s → IsViewed State.play (Play.at_spawn s)
  unfolding Play.at_spawn
  at_spawn-IsViewed s h = h

  settle-IsViewed : Keeps (IsViewed State.play) (
      Chunks.update_chunks d 0 0
      >> modify Play.at_spawn
      >> reading (λ s. send d (Play.spawn_position s))
      >> branch d.has_hub Play.join_hub done)
  unfolding Play.spawn_position
  settle-IsViewed =
      then-Keeps _ _ _
        (search
          (
            keeps_rules,
            send-Keeps (IsViewed State.play) (IsViewed-Blind State.play) d,
            update_chunks-Keeps,
            at_spawn-IsViewed,
          )
          depth 12)
        (branch-Keeps _ _ _ _
          (join_hub-Keeps (IsViewed State.play) (IsViewed-Blind State.play) d (λ s h. h))
          (done-Keeps _))

  pub enter_play-IsViewed :
      (s : Session) → IsBlank State.play s → IsViewed State.play (Play.enter_play d s).1
  unfolding Play.enter_play
  enter_play-IsViewed s h =
      then-leads (IsBlank State.play) (IsViewed State.play) (Play.announce d) _ s
        (announce-IsBlank State.play) (blank-IsViewed State.play) (settle-IsViewed.keeps) h

  pub on_handshake-IsBare : (p : Handshake) → Keeps IsBare (Login.on_handshake p)
  unfolding Login.on_handshake
  on_handshake-IsBare p = search (keeps_rules) depth 12

  pub acknowledged-IsBare : Keeps IsBare (Login.on_login_acknowledged d)
  unfolding Login.on_login_acknowledged
  acknowledged-IsBare =
      then-Keeps IsBare _ _ (search keeps_rules) (enter_configuration-Keeps IsBare IsBare-Blind d)

  pub on_carried_item-IsViewed :
      (st : State) (p : SetCarriedItem) → Keeps (IsViewed st) (Play.on_carried_item p)
  unfolding Play.on_carried_item
  on_carried_item-IsViewed st p = search keeps_rules

  pub on_creative_slot-IsViewed :
      (st : State) (p : SetCreativeModeSlot) → Keeps (IsViewed st) (Play.on_creative_slot p)
  unfolding Play.on_creative_slot Play.put_in_hotbar Play.indexed
  on_creative_slot-IsViewed st p = search keeps_rules
