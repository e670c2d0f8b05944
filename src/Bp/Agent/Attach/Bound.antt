-- ===== src/Bp/Agent/Attach/Bound.antt =====
-- Which convergence layers of src/bp/agent.py are bound.
use dtn_demo_agent.Common.{
  ℕ, ◌≡◌, refl, sym, ap, ◌∙◌, Bool, true, false, not, is_some, List, [], ◌∷◌, String, str_eq,
  eq_iff, arith, Bool-cases, Option-cases, inl, inr, if◌then◌else◌, All,
}
use dtn_demo_agent.Common.Exec.{final}
use dtn_demo_agent.Bp.Cla.{Binding, bind, unbind, text_set}
use dtn_demo_agent.Bp.Agent.Attach.{
  Layer, cl_types, attached_layer, cl_attach, owner_changed, bus_name_changed,
}

-- The owner of each name on the bus; the empty text is none.
abbrev pub Owners : Type 0
Owners = String → String

abbrev pub has_owner : Owners → String → Bool
has_owner owners n = not (str_eq (owners n) "")

abbrev set_owner : String → String → Owners → Owners
set_owner n owner owners m = if str_eq m n then owner else owners m

-- What happens: a user attaches a layer, or a name on the bus gets another owner or loses it. A proxy is
-- made in any case.
pub data Happening : Type 0 where
  attaches : String → String → ℕ → Happening
  changes : String → String → ℕ → Happening

-- The bus and the agent: the bus tells the agent of each change, with the owner before.
abbrev happen : Happening → Owners × List (String × Layer) → Owners × List (String × Layer)
happen (attaches cltype servname proxy) (owners, s) =
    (owners, final (cl_attach cltype servname (has_owner owners servname) proxy s))
happen (changes servname new_owner proxy) (owners, s) = (
  set_owner servname new_owner owners,
  bus_name_changed servname (owners servname) new_owner proxy s,
)

abbrev pub happenings :
    List Happening → Owners × List (String × Layer) → Owners × List (String × Layer)
happenings [] w = w
happenings (h ∷ hs) w = happenings hs (happen h w)

-- A layer is bound if, and only if, its service has an owner.
abbrev pub IsBoundRight : Owners → String × Layer → Type 0
IsBoundRight owners (t, l) = is_some l.binding.agent_obj ≡ has_owner owners l.serv_name

abbrev pub AllBoundRight : Owners × List (String × Layer) → Type 0
AllBoundRight (owners, s) = All (IsBoundRight owners) s

set-All :
    (owners : Owners) (t : String) (l : Layer) (s : List (String × Layer))
    → IsBoundRight owners (t, l)
    → All (IsBoundRight owners) s
    → All (IsBoundRight owners) (text_set t l s)
set-All owners t l [] h p = (h, tt)
set-All owners t l ((u, m) ∷ s) h (q, p) = elim (Bool-cases (str_eq u t)) [
  | inl e ↦ rw e (h, p)
  | inr e ↦ rw e (q, set-All owners t l s h p)
]

attached_right :
    (names : List String) (servname : String) (proxy : ℕ) (has : Bool)
    → (is_some (attached_layer names servname proxy has).binding.agent_obj ≡ has)
      × ((attached_layer names servname proxy has).serv_name ≡ servname)
unfolding bind
attached_right names servname proxy true = (refl, refl)
attached_right names servname proxy false = (refl, refl)

attach-AllBoundRight :
    (cltype servname : String) (proxy : ℕ) (owners : Owners) (s : List (String × Layer))
    → All (IsBoundRight owners) s
    → All
        (IsBoundRight owners)
        (final (cl_attach cltype servname (has_owner owners servname) proxy s))
unfolding cl_attach
attach-AllBoundRight cltype servname proxy owners s p = elim (Option-cases (cl_types cltype)) [
  | inl e ↦ rw (e, cl_attach) p
  | inr (names, e) ↦
      let (h, q) = attached_right names servname proxy (has_owner owners servname) in
      rw (e, cl_attach) (set-All owners cltype _ s (h ∙ ap (has_owner owners) (sym q)) p)
]

changed_name :
    (old_owner new_owner : String) (proxy : ℕ) (l : Layer)
    → (owner_changed old_owner new_owner proxy l).serv_name ≡ l.serv_name
unfolding owner_changed
changed_name old_owner new_owner proxy l = ground arith

is_some-bind :
    (names : List String) (proxy : ℕ) (b : Binding) → is_some (bind names proxy b).agent_obj ≡ true
unfolding bind
is_some-bind names proxy b = elim (Option-cases b.agent_obj) [
  | inl e ↦ rw (e, bind) refl
  | inr (k, e) ↦ rw (e, bind, e) refl
]

changed_right :
    (old_owner new_owner : String) (proxy : ℕ) (l : Layer)
    → is_some l.binding.agent_obj ≡ not (str_eq old_owner "")
    → is_some (owner_changed old_owner new_owner proxy l).binding.agent_obj
      ≡ not (str_eq new_owner "")
unfolding owner_changed unbind
changed_right old_owner new_owner proxy l h = elim (Bool-cases (str_eq new_owner "")) [
  | inr e ↦ rw (e, owner_changed) (is_some-bind _ proxy _)
  | inl e ↦ elim (Bool-cases (str_eq old_owner "")) [
    | inl f ↦ rw (e, owner_changed, f) (h ∙ ap not f)
    | inr f ↦ rw (e, owner_changed, f) refl
  ]
]

change-AllBoundRight :
    (n new_owner : String) (proxy : ℕ) (owners : Owners) (s : List (String × Layer))
    → All (IsBoundRight owners) s
    → All
        (IsBoundRight (set_owner n new_owner owners))
        (bus_name_changed n (owners n) new_owner proxy s)
unfolding bus_name_changed
change-AllBoundRight n new_owner proxy owners [] p = tt
change-AllBoundRight n new_owner proxy owners ((t, l) ∷ s) (q, p) =
    let rest = change-AllBoundRight n new_owner proxy owners s p in
    elim (Bool-cases (str_eq l.serv_name n)) [
      | inl e ↦
          rw (e, bus_name_changed)
            (
              changed_right (owners n) new_owner proxy l
                    (q ∙ ap (has_owner owners) ((eq_iff l.serv_name n).0 e))
                  ∙ sym (
                      ap (has_owner (set_owner n new_owner owners))
                        (changed_name (owners n) new_owner proxy l)
                      ∙ rw e refl),
              rest,
            )
      | inr e ↦ rw (e, bus_name_changed) (q ∙ sym (rw e refl), rest)
    ]

-- At any time after any attachments and changes of owners, from an agent that is attached to nothing, a
-- layer is bound if, and only if, its service has an owner on the bus. The bus is to tell of each change.
pub happenings-AllBoundRight :
    (hs : List Happening) (owners : Owners) → AllBoundRight (happenings hs (owners, []))
happenings-AllBoundRight hs owners = kept hs (owners, []) tt
  where
    kept :
        (hs : List Happening) (w : Owners × List (String × Layer))
        → AllBoundRight w
        → AllBoundRight (happenings hs w)
    kept [] w p = p
    kept (attaches cltype servname proxy ∷ hs) (owners, s) p =
        kept hs _ (attach-AllBoundRight cltype servname proxy owners s p)
    kept (changes n new_owner proxy ∷ hs) (owners, s) p =
        kept hs _ (change-AllBoundRight n new_owner proxy owners s p)
