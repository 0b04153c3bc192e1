-- ===== src/Hub/Present.antt =====
-- What each player has been told agrees with the registry, handler by handler.
use gomc.Prelude.{ℕ, ◌≡◌, sym, ap, ◌∙◌, inl, inr, Bool-cases, Option-cases}
use gomc.Prelude.{List, [], ◌∷◌, ◌++◌, All, ◌==◌, ==_iff, Option, none}
use gomc.Prelude.{some, if◌then◌else◌}
use gomc.World.Blocks.{World, set_block}
use gomc.Hub.{Player, enqueue, broadcast, delete, lookup, tell_spawns, spawn_packet, on_join}
use gomc.Hub.{on_leave, on_chat, on_set_block, chat_packet, info_update, forget_packet}
use gomc.Hub.{remove_packet}
use gomc.Hub.Registry.{enqueue-eid, All-delete, on_leave_absent, on_leave_present}
use gomc.Hub.Floats.{Floats}
use gomc.Hub.View.{Place, place, known, heard}
use gomc.Hub.Known.{Distinct, known_cons, known-delete, known-broadcast, Distinct-broadcast}
use gomc.Hub.Known.{Distinct-delete, broadcast-IsPlaced, enqueue-IsPlaced, enqueue-place}
use gomc.Hub.Put.{tell_spawns-eid, tell_spawns-place, tell_spawns-IsPlaced, All-lookup}
use gomc.Hub.Heard.{IsPlaced, Silent, spawn-Touches, remove-Touches, info-Silent, forget-Silent}
use gomc.Hub.Heard.{chat-Silent, block-Silent}
use gomc.Hub.Agrees.{Agrees, upon, Agrees-eq, All-Agrees-eq, enqueue-Agrees, broadcast-Agrees}
use gomc.Hub.Agrees.{broadcast-Silent-Agrees}

-- Every player can be written, no two share an id, and each one's channel agrees with the registry.
pub record IsPresent (fl : Floats) (ps : List Player) : Type 0 where
  pub placed : All IsPlaced ps
  pub distinct : Distinct ps
  pub agrees : All (Agrees fl (known ps)) ps

-- The picture of some players over another.
unfoldable or_else : Option Place → Option Place → Option Place
or_else none w = w
or_else (some v) w = some v

abbrev over : List Player → (ℕ → Option Place) → ℕ → Option Place
over ps f eid = or_else (known ps eid) (f eid)

over_cons :
    (f : ℕ → Option Place) (o : Player) (os : List Player) (eid : ℕ)
    → known os o.eid ≡ none
    → over os (upon o.eid (λ _. some (place o)) f) eid ≡ over (o ∷ os) f eid
unfolding or_else
over_cons f o os eid new = elim (Bool-cases (o.eid == eid)) [
  | inl e ↦
      let absent = ap (known os) (sym ((==_iff o.eid eid).0 e)) ∙ new in
      rw (known_cons o os eid, e, absent)
  | inr e ↦ rw (known_cons o os eid, e)
]

over-none : (ps : List Player) (eid : ℕ) → over ps (λ _. none) eid ≡ known ps eid
unfolding or_else
over-none ps eid = elim (Option-cases (known ps eid)) [ inl e ↦ rw e | inr (v, e) ↦ rw e ]

-- The others, after a join.
abbrev greeted : Player → List Player → List Player
greeted p ps = delete p.eid (broadcast (spawn_packet p) (broadcast (info_update (p ∷ [])) ps))

known-greeted :
    (p q : Player) (ps : List Player) (eid : ℕ)
    → q.eid ≡ p.eid
    → place q ≡ place p
    → known (q ∷ greeted p ps) eid ≡ (if p.eid == eid then some (place p) else known ps eid)
known-greeted p q ps eid same same_place = elim (Bool-cases (p.eid == eid)) [
  | inl e ↦ rw (known_cons q (greeted p ps) eid, same, same_place, e)
  | inr e ↦
      rw (known_cons q (greeted p ps) eid, same, e)
        (known-delete p.eid _ eid ∙ rw e (known-broadcast _ _ eid ∙ known-broadcast _ ps eid))
]

module _ (fl : Floats) where
  tell_spawns-Agrees :
      (f : ℕ → Option Place) (others : List Player) (p : Player)
      → All IsPlaced others
      → Distinct others
      → Agrees fl f p
      → Agrees fl (over others f) (tell_spawns others p)
  unfolding or_else tell_spawns known lookup
  tell_spawns-Agrees f [] p placed distinct h = h
  tell_spawns-Agrees f (o ∷ os) p (ho, placed) (new, distinct) h =
      Agrees-eq fl (tell_spawns os (enqueue (spawn_packet o) p)) (λ eid _. over_cons f o os eid new)
        (tell_spawns-Agrees (upon o.eid (λ _. some (place o)) f) os _ placed distinct
          (enqueue-Agrees fl (spawn_packet o) p (λ eid _. spawn-Touches fl o ho eid (f eid)) h))

  broadcast-Silent-IsPresent :
      (b : List ℕ) (ps : List Player)
      → Silent fl b
      → IsPresent fl ps
      → IsPresent fl (broadcast b ps)
  broadcast-Silent-IsPresent b ps silent h = record {
    placed = broadcast-IsPlaced b ps h.placed;
    distinct = Distinct-broadcast b ps h.distinct;
    agrees =
        All-Agrees-eq fl _ (λ eid. sym (known-broadcast b ps eid))
          (broadcast-Silent-Agrees fl (known ps) b ps silent h.agrees);
  }

  pub on_chat-IsPresent :
      (eid : ℕ) (msg : List ℕ) (ps : List Player)
      → IsPresent fl ps
      → IsPresent fl (on_chat eid msg ps)
  unfolding on_chat
  on_chat-IsPresent eid msg ps h = elim (Option-cases (lookup eid ps)) [
    | inl e ↦ rw (on_chat, e) h
    | inr (p, e) ↦
        rw (on_chat, e) (broadcast-Silent-IsPresent (chat_packet p msg) ps (chat-Silent fl p msg) h)
  ]

  pub on_set_block-IsPresent :
      (x y z state : ℕ) (w : World) (ps : List Player)
      → IsPresent fl ps
      → IsPresent fl (on_set_block x y z state (w, ps)).1
  unfolding on_set_block
  on_set_block-IsPresent x y z state w ps h = elim (Bool-cases (set_block x y z state w).1) [
    | inl e ↦ rw e (broadcast-Silent-IsPresent _ ps (block-Silent fl _) h)
    | inr e ↦ rw e h
  ]

  pub on_leave-IsPresent :
      (eid : ℕ) (ps : List Player) → IsPresent fl ps → IsPresent fl (on_leave eid ps)
  on_leave-IsPresent eid ps h = elim (Option-cases (lookup eid ps)) [
    | inl e ↦ rw (on_leave_absent eid ps e) h
    | inr (p, e) ↦
        let (hp, same) = All-lookup IsPlaced eid ps p e h.placed in
        rw (on_leave_present eid ps p e) (
          broadcast-Silent-IsPresent (forget_packet p) _ (forget-Silent fl p) (record {
            placed = broadcast-IsPlaced _ _ (All-delete IsPlaced eid ps h.placed);
            distinct = Distinct-broadcast _ _ (Distinct-delete eid ps h.distinct);
            agrees =
                All-Agrees-eq fl _
                  (λ eid'. sym (known-broadcast _ _ eid' ∙ known-delete eid ps eid'))
                  (broadcast-Agrees fl (known ps) eid (λ _. none) (remove_packet eid)
                    (delete eid ps) (remove-Touches fl eid (rw same at hp.0))
                    (All-delete (Agrees fl (known ps)) eid ps h.agrees));
          }))
  ]

  pub on_join-IsPresent :
      (p : Player) (ps : List Player)
      → IsPlaced p
      → p.out ≡ []
      → IsPresent fl ps
      → IsPresent fl (on_join p ps)
  unfolding on_join heard
  on_join-IsPresent p ps hp new h =
      let q = enqueue (info_update (ps ++ (p ∷ []))) p in
      let told = tell_spawns ps q in
      let same = tell_spawns-eid ps q ∙ enqueue-eid _ p in
      let same_place = tell_spawns-place ps q ∙ enqueue-place _ p in
      let silent =
        broadcast-Silent-Agrees fl (known ps) (info_update (p ∷ [])) ps (info-Silent fl _)
          h.agrees in
      record {
        placed = (
          tell_spawns-IsPlaced ps q (enqueue-IsPlaced _ p hp),
          All-delete IsPlaced p.eid _ (broadcast-IsPlaced _ _ (broadcast-IsPlaced _ ps h.placed)),
        );
        distinct = (
          known-delete p.eid _ told.eid ∙ rw ((==_iff p.eid told.eid).1 (sym same)),
          Distinct-delete p.eid _ (Distinct-broadcast _ _ (Distinct-broadcast _ ps h.distinct)),
        );
        agrees = (
          Agrees-eq fl told
              (λ eid other.
                over-none ps eid
                ∙ sym (
                    known-greeted p told ps eid same same_place
                    ∙ rw (sym (ap (λ n. n == eid) same) ∙ other)))
              (tell_spawns-Agrees (λ _. none) ps q h.placed h.distinct
                (enqueue-Agrees fl (info_update (ps ++ (p ∷ []))) p
                  (λ eid _. info-Silent fl _ eid none) (λ room eid _. rw new))),
          All-Agrees-eq fl (greeted p ps) (λ eid. sym (known-greeted p told ps eid same same_place))
              (All-delete (Agrees fl _) p.eid _ (
                broadcast-Agrees fl (known ps) p.eid (λ _. some (place p)) (spawn_packet p) _
                  (spawn-Touches fl p hp) silent)),
        );
      }
