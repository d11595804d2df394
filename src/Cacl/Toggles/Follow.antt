-- ===== src/Cacl/Toggles/Follow.antt =====
-- What the rules of the VXLAN port and the REDFISH service follow.
use sonic_host_services.Base.{
  Bool, true, false, Option, none, some, List, [], ◌∷◌, ◌++◌, str_eq, ◌≡◌, ◌≢◌, refl, subst, sym,
  ◌∙◌, ap, if◌then◌else◌, ◌⊎◌, inl, inr, by_test,
}
use sonic_host_services.Cacl.Toggles.{
  Address, Vxlan, TunnelMessage, set_tunnel, del_tunnel, Action, opens, closes, Outcome, on_tunnel,
  on_tunnels, FeatureEvent, new_state, Redfish, same_bool, redfish_to, redfish_event,
  handle_redfish_feature_events,
}

-- The actions open a port where none is open, and close the one that is.
abbrev pub Alternates : Option Address → List Action → Option Address → Type 0
Alternates now [] end = now ≡ end
Alternates none (opens a ∷ actions) end = Alternates (some a) actions end
Alternates (some b) (opens a ∷ actions) end = true ≡ false
Alternates none (closes a ∷ actions) end = true ≡ false
Alternates (some b) (closes a ∷ actions) end = (b ≡ a) × Alternates none actions end

-- An address is kept exactly while the port is open.
abbrev pub Kept : Bool → Option Address → Type 0
Kept true none = true ≡ false
Kept true (some a) = Unit
Kept false none = Unit
Kept false (some a) = true ≡ false

Alternates-append :
    (a b c : Option Address) (xs ys : List Action)
    → Alternates a xs b
    → Alternates b ys c
    → Alternates a (xs ++ ys) c
Alternates-append a b c [] ys h k = subst (λ o. Alternates o ys c) (sym h) k
Alternates-append none b c (opens x ∷ xs) ys h k = Alternates-append (some x) b c xs ys h k
Alternates-append (some z) b c (opens x ∷ xs) ys h k = h
Alternates-append none b c (closes x ∷ xs) ys h k = h
Alternates-append (some z) b c (closes x ∷ xs) ys h k =
    (h.0, Alternates-append none b c xs ys h.1 k)

-- The open address is that of the state.
pub record Follows (src : Option Address) (o : Outcome) : Type 0 where
  pub is_kept : Kept o.state.vxlan_allowed o.state.vxlan_src_ip
  pub alternates : Alternates src o.actions o.state.vxlan_src_ip

on_tunnel-Follows :
    (m : TunnelMessage) (allowed : Bool) (src : Option Address)
    → Kept allowed src
    → Follows src (on_tunnel m allowed src)
on_tunnel-Follows (set_tunnel new) true (some a) h = record { is_kept = tt; alternates = refl }
on_tunnel-Follows (set_tunnel none) false none h = record { is_kept = tt; alternates = refl }
on_tunnel-Follows (set_tunnel (some none)) false none h = record { is_kept = tt; alternates = refl }
on_tunnel-Follows (set_tunnel (some (some b))) false none h = record {
  is_kept = tt;
  alternates = refl;
}
on_tunnel-Follows del_tunnel true (some a) h = record { is_kept = tt; alternates = (refl, refl) }
on_tunnel-Follows del_tunnel false none h = record { is_kept = tt; alternates = refl }
on_tunnel-Follows (set_tunnel new) true none h = record { is_kept = h; alternates = refl }
on_tunnel-Follows del_tunnel true none h = record { is_kept = h; alternates = refl }
on_tunnel-Follows (set_tunnel none) false (some a) h = record { is_kept = tt; alternates = h }
on_tunnel-Follows (set_tunnel (some none)) false (some a) h = record {
  is_kept = tt;
  alternates = cc;
}
on_tunnel-Follows (set_tunnel (some (some b))) false (some a) h = record {
  is_kept = tt;
  alternates = h;
}
on_tunnel-Follows del_tunnel false (some a) h = record { is_kept = h; alternates = refl }

-- Whatever messages come, with an address kept exactly while the port is open: that stays so, and
-- the rules that run open the port only while none is open and close the address that is open.
pub on_tunnels-Follows :
    (messages : List TunnelMessage) (v : Vxlan)
    → Kept v.vxlan_allowed v.vxlan_src_ip
    → Follows v.vxlan_src_ip (on_tunnels messages v)
unfolding on_tunnels
on_tunnels-Follows [] v h = record { is_kept = h; alternates = refl }
on_tunnels-Follows (m ∷ messages) v h =
    let now : Follows v.vxlan_src_ip (on_tunnel m v.vxlan_allowed v.vxlan_src_ip) =
      on_tunnel-Follows m v.vxlan_allowed v.vxlan_src_ip h in
    let state : Vxlan = (on_tunnel m v.vxlan_allowed v.vxlan_src_ip).state in
    let later : Follows state.vxlan_src_ip (on_tunnels messages state) =
      on_tunnels-Follows messages state now.is_kept in
    record {
      is_kept = later.is_kept;
      alternates =
          Alternates-append v.vxlan_src_ip state.vxlan_src_ip _ _ _ now.alternates later.alternates;
    }

-- The state that the last event of REDFISH has, if there is one.
abbrev pub last_state : List FeatureEvent → Bool → Bool
last_state [] b = b
last_state (e ∷ events) b = last_state events (if str_eq e.key "redfish" then new_state e else b)

-- The service is allowed as the last event of it says, and a new walk is asked for if that differs
-- from what was allowed before.
pub record Tracks (events : List FeatureEvent) (before after : Redfish) : Type 0 where
  pub is_last : after.redfish_allowed ≡ last_state events before.redfish_allowed
  pub is_asked : after.redfish_allowed ≢ before.redfish_allowed → after.is_notified ≡ true

notified_stays :
    (events : List FeatureEvent) (r : Redfish)
    → r.is_notified ≡ true
    → (handle_redfish_feature_events events r).is_notified ≡ true
unfolding handle_redfish_feature_events
notified_stays [] r h = h
notified_stays (e ∷ events) r h =
    notified_stays events (redfish_event e r) (stays (str_eq e.key "redfish") (new_state e))
  where
    stays : (b n : Bool) → (if b then redfish_to n r else r).is_notified ≡ true
    stays false n = h
    stays true n =
        by_test (λ (x : Redfish). x.is_notified ≡ true) (same_bool n r.redfish_allowed) r _ (λ f. h)
          (λ f. refl)

same_bool-true : (a b : Bool) → same_bool a b ≡ true → b ≡ a
same_bool-true true true h = refl
same_bool-true true false h = cc
same_bool-true false true h = cc
same_bool-true false false h = refl

redfish_to-allowed : (n : Bool) (r : Redfish) → (redfish_to n r).redfish_allowed ≡ n
redfish_to-allowed n r =
    by_test (λ (x : Redfish). x.redfish_allowed ≡ n) (same_bool n r.redfish_allowed) r _
      (same_bool-true n r.redfish_allowed) (λ f. refl)

redfish_to-asks :
    (n : Bool) (r : Redfish)
    → ((redfish_to n r).redfish_allowed ≡ r.redfish_allowed) ⊎ ((redfish_to n r).is_notified ≡ true)
redfish_to-asks n r =
    by_test (λ (x : Redfish). (x.redfish_allowed ≡ r.redfish_allowed) ⊎ (x.is_notified ≡ true))
      (same_bool n r.redfish_allowed) r _ (λ f. inl refl) (λ f. inr refl)

event-allowed :
    (e : FeatureEvent) (r : Redfish)
    → (redfish_event e r).redfish_allowed
      ≡ (if str_eq e.key "redfish" then new_state e else r.redfish_allowed)
event-allowed e r = of_key (str_eq e.key "redfish")
  where
    of_key :
        (b : Bool)
        → (if b then redfish_to (new_state e) r else r).redfish_allowed
          ≡ (if b then new_state e else r.redfish_allowed)
    of_key true = redfish_to-allowed (new_state e) r
    of_key false = refl

event-asks :
    (e : FeatureEvent) (r : Redfish)
    → ((redfish_event e r).redfish_allowed ≡ r.redfish_allowed)
      ⊎ ((redfish_event e r).is_notified ≡ true)
event-asks e r =
    by_test (λ (x : Redfish). (x.redfish_allowed ≡ r.redfish_allowed) ⊎ (x.is_notified ≡ true))
      (str_eq e.key "redfish") (redfish_to (new_state e) r) r (λ f. redfish_to-asks (new_state e) r)
      (λ f. inl refl)

-- After the events of the FEATURE table, REDFISH is allowed as the last event of it says, as before
-- without one, and if that is a change, the ACLs are walked again.
pub handle_redfish-Tracks :
    (events : List FeatureEvent) (r : Redfish)
    → Tracks events r (handle_redfish_feature_events events r)
unfolding handle_redfish_feature_events
handle_redfish-Tracks [] r = record { is_last = refl; is_asked = λ h. elim (h refl) [ ] }
handle_redfish-Tracks (e ∷ events) r =
    let later : Tracks events (redfish_event e r)
        (handle_redfish_feature_events events (redfish_event e r)) =
      handle_redfish-Tracks events (redfish_event e r) in
    record {
      is_last = later.is_last ∙ ap (last_state events) (event-allowed e r);
      is_asked = λ h. elim (event-asks e r) [
        | inl same ↦ later.is_asked (λ f. h (f ∙ same))
        | inr asked ↦ notified_stays events (redfish_event e r) asked
      ];
    }
