-- ===== src/Hub/Presence.antt =====
-- What each player has been told agrees with the registry, through moves.
use gomc.Prelude.{ℕ, ◌^◌, ◌<◌, ◌≡◌, refl, sym, ap, ◌∙◌, inl, inr, Bool-cases}
use gomc.Prelude.{List, All, ◌==◌, ==_iff, Bool, true, false, not, ◌||◌, Option}
use gomc.Prelude.{some, none, if◌then◌else◌}
use mathlib.Core.Bool.{false≢true}
use gomc.Hub.{Player}
use gomc.Hub.Floats.{Floats, FloatLaws}
use gomc.Hub.Move.{MoveRequest, on_move, shift, respawn, put, broadcast_except}
use gomc.Hub.Move.{deg_to_angle, advance, pos_moved, rotated, scaled}
use gomc.Hub.Cases.{on_move-cases}
use gomc.Hub.View.{Place, place, known, change}
use gomc.Hub.Known.{known-broadcast_except, Distinct-broadcast_except, broadcast_except-IsPlaced}
use gomc.Hub.Known.{known_present}
use gomc.Hub.Put.{known-put, Distinct-put, All-put, All-lookup}
use gomc.Hub.Heard.{IsPlaced, Touches, delta_change, delta-Touches, head-Touches, remove-Touches}
use gomc.Hub.Heard.{spawn-Touches}
use gomc.Hub.Agrees.{Agrees, upon, All-Agrees-eq, broadcast_except-Agrees}
use gomc.Hub.Present.{IsPresent}

or-false : (a b : Bool) → (a || b) ≡ false → (a ≡ false) × (b ≡ false)
or-false false b h = (refl, h)
or-false true b h = absurd (false≢true (sym h))

not-false : (a : Bool) → not a ≡ false → a ≡ true
not-false true h = refl
not-false false h = absurd (false≢true (sym h))

-- A change of one entity, and what it makes of it.
upon_eq :
    (me : ℕ) (c : Option Place → Option Place) (f : ℕ → Option Place) (v : Option Place) (eid : ℕ)
    → c (f me) ≡ v
    → upon me c f eid ≡ (if me == eid then v else f eid)
upon_eq me c f v eid h = elim (Bool-cases (me == eid)) [
  | inl e ↦ rw e (ap (λ n. c (f n)) (sym ((==_iff me eid).0 e)) ∙ h)
  | inr e ↦ rw e
]

upon-upon :
    (me : ℕ) (c d : Option Place → Option Place) (f : ℕ → Option Place) (eid : ℕ)
    → upon me d (upon me c f) eid ≡ upon me (λ v. d (c v)) f eid
upon-upon me c d f eid = elim (Bool-cases (me == eid)) [ inl e ↦ rw e | inr e ↦ rw e ]

module _ (fl : Floats) (ps : List Player) (q : Player) (v : Place) (h : IsPresent fl ps)
    (present : known ps q.eid ≡ some v) (placed : IsPlaced q)
    (agrees : Agrees fl (known ps) q) where
  settled :
      (c : Option Place → Option Place) (eid : ℕ)
      → c (some v) ≡ some (place q)
      → upon q.eid c (known ps) eid ≡ known (put q ps) eid
  settled c eid same =
      upon_eq q.eid c (known ps) (some (place q)) eid (ap c present ∙ same)
      ∙ sym (known-put q v ps eid present)

  told-Agrees :
      (c : Option Place → Option Place) (b : List ℕ)
      → Touches fl q.eid c b
      → All (Agrees fl (upon q.eid c (known ps))) (broadcast_except (put q ps) q.eid b)
  told-Agrees c b seen =
      broadcast_except-Agrees fl (known ps) q.eid c b (put q ps) seen
        (All-put (Agrees fl (known ps)) q ps agrees h.agrees)

  -- The others are told of the new fields of `q` by a packet.
  told-IsPresent :
      (c : Option Place → Option Place) (b : List ℕ)
      → Touches fl q.eid c b
      → c (some v) ≡ some (place q)
      → IsPresent fl (broadcast_except (put q ps) q.eid b)
  told-IsPresent c b seen same = record {
    placed = broadcast_except-IsPlaced _ q.eid b (All-put IsPlaced q ps placed h.placed);
    distinct = Distinct-broadcast_except _ q.eid b (Distinct-put q ps h.distinct);
    agrees =
        All-Agrees-eq fl _
          (λ eid. settled c eid same ∙ sym (known-broadcast_except (put q ps) q.eid b eid))
          (told-Agrees c b seen);
  }

  -- By two packets.
  told_twice-IsPresent :
      (c d : Option Place → Option Place) (b b' : List ℕ)
      → Touches fl q.eid c b
      → Touches fl q.eid d b'
      → d (c (some v)) ≡ some (place q)
      → IsPresent fl (broadcast_except (broadcast_except (put q ps) q.eid b) q.eid b')
  told_twice-IsPresent c d b b' seen seen' same = record {
    placed =
        broadcast_except-IsPlaced _ q.eid b'
          (broadcast_except-IsPlaced _ q.eid b (All-put IsPlaced q ps placed h.placed));
    distinct =
        Distinct-broadcast_except _ q.eid b'
          (Distinct-broadcast_except _ q.eid b (Distinct-put q ps h.distinct));
    agrees =
        All-Agrees-eq fl _
          (λ eid.
            upon-upon q.eid c d (known ps) eid
            ∙ (settled (λ w. d (c w)) eid same
                ∙ (sym (known-broadcast_except (put q ps) q.eid b eid)
                    ∙ sym (known-broadcast_except _ q.eid b' eid))))
          (broadcast_except-Agrees fl (upon q.eid c (known ps)) q.eid d b' _ seen'
            (told-Agrees c b seen));
  }

module _ {fl : Floats} (laws : FloatLaws fl) where
  still_deltas :
      (m : MoveRequest) (p : Player)
      → pos_moved fl m p ≡ false
      → (fl.to_int16 (scaled fl m.x p.x) ≡ 0)
        × (fl.to_int16 (scaled fl m.y p.y) ≡ 0)
        × (fl.to_int16 (scaled fl m.z p.z) ≡ 0)
  unfolding pos_moved
  still_deltas m p h =
      let (hx, hyz) = or-false _ _ h in
      let (hy, hz) = or-false _ _ hyz in
      (
        laws.to_int16_zero _ (not-false _ hx),
        laws.to_int16_zero _ (not-false _ hy),
        laws.to_int16_zero _ (not-false _ hz),
      )

  unturned :
      (m : MoveRequest) (p : Player)
      → rotated fl m p ≡ false
      → (deg_to_angle fl m.yaw ≡ p.yaw) × (deg_to_angle fl m.pitch ≡ p.pitch)
  unfolding rotated
  unturned m p h =
      let (hy, hp) = or-false _ _ h in
      ((==_iff _ p.yaw).0 (not-false _ hy), (==_iff _ p.pitch).0 (not-false _ hp))

  -- The player as the last branch of a move leaves it.
  abbrev advanced : ℕ → ℕ → ℕ → ℕ → ℕ → Player → Player
  advanced dx dy dz yaw pitch p = record p {
    x = advance fl p.x dx;
    y = advance fl p.y dy;
    z = advance fl p.z dz;
    yaw = yaw;
    pitch = pitch;
  }

  delta_change-head :
      (moved : Bool) (dx dy dz yaw pitch : ℕ) (p : Player)
      → (moved ≡ false → (dx ≡ 0) × (dy ≡ 0) × (dz ≡ 0))
      → change
          (λ q. record q { head_yaw = yaw })
          (delta_change fl moved true dx dy dz yaw pitch (some (place p)))
        ≡ some (place (advanced dx dy dz yaw pitch p))
  delta_change-head true dx dy dz yaw pitch p still = refl
  delta_change-head false dx dy dz yaw pitch p still =
      let (hx, hy, hz) = still refl in rw (hx, hy, hz)

  delta_change_lem :
      (moved : Bool) (dx dy dz yaw pitch : ℕ) (p : Player)
      → (moved ≡ false → (dx ≡ 0) × (dy ≡ 0) × (dz ≡ 0))
      → (yaw ≡ p.yaw) × (pitch ≡ p.pitch)
      → delta_change fl moved false dx dy dz yaw pitch (some (place p))
        ≡ some (place (advanced dx dy dz yaw pitch p))
  delta_change_lem true dx dy dz yaw pitch p still (hy, hp) = rw (hy, hp)
  delta_change_lem false dx dy dz yaw pitch p still (hyaw, hpitch) =
      let (hx, hy, hz) = still refl in rw (hx, hy, hz, hyaw, hpitch)

  shift-IsPresent :
      (m : MoveRequest) (moved turned : Bool) (dx dy dz yaw pitch : ℕ) (p : Player)
      (ps : List Player)
      → (moved ≡ false → (dx ≡ 0) × (dy ≡ 0) × (dz ≡ 0))
      → (turned ≡ false → (yaw ≡ p.yaw) × (pitch ≡ p.pitch))
      → dx < 2 ^ 16 × dy < 2 ^ 16 × dz < 2 ^ 16
      → IsPlaced p
      → Agrees fl (known ps) p
      → known ps p.eid ≡ some (place p)
      → IsPresent fl ps
      → IsPresent fl (shift fl m moved turned dx dy dz yaw pitch p ps)
  unfolding shift advance
  shift-IsPresent m moved true dx dy dz yaw pitch p ps still _ small placed agrees present h =
      told_twice-IsPresent fl ps (advanced dx dy dz yaw pitch p) (place p) h present
        (placed.0, placed.1, laws.add-lt _ _, laws.add-lt _ _, laws.add-lt _ _) agrees _ _ _ _
        (delta-Touches fl p.eid moved true dx dy dz yaw pitch m.on_ground placed.0 small)
        (head-Touches fl p.eid yaw placed.0) (delta_change-head moved dx dy dz yaw pitch p still)
  shift-IsPresent m moved false dx dy dz yaw pitch p ps still same small placed agrees present h =
      told-IsPresent fl ps (advanced dx dy dz yaw pitch p) (place p) h present
        (placed.0, placed.1, laws.add-lt _ _, laws.add-lt _ _, laws.add-lt _ _) agrees _ _
        (delta-Touches fl p.eid moved false dx dy dz yaw pitch m.on_ground placed.0 small)
        (delta_change_lem moved dx dy dz yaw pitch p still (same refl))

  respawn-IsPresent :
      (m : MoveRequest) (yaw pitch : ℕ) (p : Player) (ps : List Player)
      → m.x < 2 ^ 64 × m.y < 2 ^ 64 × m.z < 2 ^ 64
      → IsPlaced p
      → Agrees fl (known ps) p
      → known ps p.eid ≡ some (place p)
      → IsPresent fl ps
      → IsPresent fl (respawn fl m yaw pitch p ps)
  unfolding respawn
  respawn-IsPresent m yaw pitch p ps words placed agrees present h =
      let q = record p { x = m.x; y = m.y; z = m.z; yaw = yaw; pitch = pitch } in
      told_twice-IsPresent fl ps q (place p) h present
        (placed.0, placed.1, words.0, words.1, words.2) agrees (λ _. none) (λ _. some (place q)) _ _
        (remove-Touches fl p.eid placed.0)
        (spawn-Touches fl q (placed.0, placed.1, words.0, words.1, words.2)) refl

  pub on_move-IsPresent :
      (m : MoveRequest) (ps : List Player)
      → m.x < 2 ^ 64 × m.y < 2 ^ 64 × m.z < 2 ^ 64
      → IsPresent fl ps
      → IsPresent fl (on_move fl m ps)
  on_move-IsPresent m ps words h = on_move-cases fl (IsPresent fl) m ps h λ p e.
      let (placed, same) = All-lookup IsPlaced m.entity_id ps p e h.placed in
      let agrees = (All-lookup (Agrees fl (known ps)) m.entity_id ps p e h.agrees).0 in
      let present = ap (known ps) same ∙ known_present ps p m.entity_id e in
      (
        respawn-IsPresent m _ _ p ps words placed agrees present h,
        shift-IsPresent m _ _ _ _ _ _ _ p ps (still_deltas m p) (unturned m p)
            (laws.to_int16-lt _, laws.to_int16-lt _, laws.to_int16-lt _) placed agrees present h,
      )
