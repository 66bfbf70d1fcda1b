-- ===== src/PluginHost/Graph/Declarations.antt =====
-- host.go: the first loop of `Graph`, one turn and all of them.
use xraytool_go.Prelude.{
  ◌+◌, ◌≤◌, ◌<◌, ◌==◌, true, false, ◌≡◌, refl, sym, subst, ap, ◌∙◌, ◌⊎◌, inl, inr, some, List, [],
  ◌∷◌, map, String, arith, exists, length, str_eq, eq_iff, str_eq_refl, str_eq_sound, if◌then◌else◌,
  Bool-cases, All,
}
use xraytool_go.GoLib.{GoLib}
use xraytool_go.Result.{Result, ok, err}
use xraytool_go.PluginHost.{ServiceRef, PluginMetadata}
use xraytool_go.PluginHost.Graph.{
  Declared, publisher_of, publish_all, check_mandatory, with_published, declare_publishes, declare,
  then_declared, declare_all,
}
use xraytool_go.PluginHost.Graph.Names.{count, exists-count}
use xraytool_go.PluginHost.Graph.Publishers.{
  Published, Extends, OwnedBy, PublishedBy, PublishedBy-Extends, publish_all_lem,
}

-- The mandatory plugin of a descriptor's turn.
pub record IsChecked (m : PluginMetadata) (st after : Declared) : Type 0 where
  pub optional : m.mandatory ≡ false → after.mandatory_name ≡ st.mandatory_name
  pub first : m.mandatory ≡ true → str_eq st.mandatory_name "" ≡ true
  pub alone : m.mandatory ≡ true → m.requires ≡ []
  pub named : m.mandatory ≡ true → after.mandatory_name ≡ m.name

-- One descriptor's turn.
pub record Declares (lib : GoLib) (m : PluginMetadata) (st after : Declared) : Type 0 where
  pub visible : str_eq (lib.trim_space m.name) "" ≡ false
  pub new : count m.name st.names ≡ 0
  pub names : after.names ≡ m.name ∷ st.names
  pub publishes : publish_all lib m.name [] m.publishes st.published ≡ ok after.published
  pub checked : IsChecked m st after

no_requires : (rs : List ServiceRef) → (length rs == 0) ≡ true → rs ≡ []
no_requires [] h = refl
no_requires (r ∷ rs) h = ground arith

check_mandatory_lem :
    (m : PluginMetadata) (st after : Declared)
    → check_mandatory m st ≡ ok after
    → (after.names ≡ st.names) × (after.published ≡ st.published) × IsChecked m st after
check_mandatory_lem m st after h = (
  ground arith,
  ground arith,
  record {
    optional = λ o. ground arith;
    first = λ o. ground arith;
    alone = λ o. no_requires m.requires (ground arith);
    named = λ o. ground arith;
  },
)

declare_publishes_lem :
    (lib : GoLib) (m : PluginMetadata) (r : Result Declared) (after : Declared)
    → declare_publishes lib m r ≡ ok after
    → (st : Declared) × (r ≡ ok st)
      × (after.names ≡ st.names)
      × (after.mandatory_name ≡ st.mandatory_name)
      × (publish_all lib m.name [] m.publishes st.published ≡ ok after.published)
declare_publishes_lem lib m (err e) after h = cc
declare_publishes_lem lib m (ok st) after h =
    let parts = published (publish_all lib m.name [] m.publishes st.published) h in
    (st, refl, parts.0, parts.1, parts.2)
  where
    published :
        (r : Result Published)
        → with_published st r ≡ ok after
        → (after.names ≡ st.names)
          × (after.mandatory_name ≡ st.mandatory_name)
          × (r ≡ ok after.published)
    published (ok p) h = ground arith
    published (err e) h = cc

declare-Declares :
    (lib : GoLib) (m : PluginMetadata) (st after : Declared)
    → declare lib m st ≡ ok after
    → Declares lib m st after
declare-Declares lib m st after h =
    let entered = record st { names = m.name ∷ st.names } in
    let visible : str_eq (lib.trim_space m.name) "" ≡ false = ground arith in
    let new : exists (str_eq m.name) st.names ≡ false = ground arith in
    let body : declare_publishes lib m (check_mandatory m entered) ≡ ok after = ground arith in
    let d = declare_publishes_lem lib m (check_mandatory m entered) after body in
    let c = check_mandatory_lem m entered d.0 d.1 in
    record {
      visible = visible;
      new = ground (arith, exists-count m.name st.names);
      names = d.2 ∙ c.0;
      publishes =
          subst (λ (p : Published). publish_all lib m.name [] m.publishes p ≡ ok after.published)
            c.1 d.4;
      checked = record {
        optional = λ o. d.3 ∙ c.2.optional o;
        first = λ o. c.2.first o;
        alone = λ o. c.2.alone o;
        named = λ o. d.3 ∙ c.2.named o;
      };
    }

abbrev pub names_of : List PluginMetadata → List String
names_of = map (λ m. m.name)

-- All the turns, from one state to another.
pub record AllDeclared (lib : GoLib) (ms : List PluginMetadata) (st after : Declared) : Type 0 where
  pub counted : (c : String) → count c after.names ≡ count c (names_of ms) + count c st.names
  pub distinct : ((c : String) → count c st.names ≤ 1) → (c : String) → count c after.names ≤ 1
  pub extends : Extends st.published after.published
  pub owned :
      (s p : String)
      → publisher_of s after.published ≡ some p
      → (0 < count p (names_of ms)) ⊎ (publisher_of s st.published ≡ some p)
  pub own : All (λ (m : PluginMetadata). PublishedBy m.name after.published m.publishes) ms
  pub kept : str_eq st.mandatory_name "" ≡ false → after.mandatory_name ≡ st.mandatory_name
  pub mandatory :
      lib.trim_space "" ≡ ""
      → All
          (λ (m : PluginMetadata).
            m.mandatory ≡ true
            → (m.requires ≡ []) × (after.mandatory_name ≡ m.name) × (str_eq m.name "" ≡ false))
          ms

not_empty :
    (lib : GoLib) (name : String)
    → lib.trim_space "" ≡ ""
    → str_eq (lib.trim_space name) "" ≡ false
    → str_eq name "" ≡ false
not_empty lib name t h = elim (Bool-cases (str_eq name "")) [
  | inl e ↦
      let blank : lib.trim_space name ≡ "" = ap lib.trim_space (str_eq_sound name "" e) ∙ t in
      let seen : str_eq (lib.trim_space name) "" ≡ true = rw blank (str_eq_refl "") in cc
  | inr e ↦ e
]

-- A name that is set stays, for a second mandatory plugin is refused.
IsChecked-kept :
    (m : PluginMetadata) (st after : Declared)
    → IsChecked m st after
    → str_eq st.mandatory_name "" ≡ false
    → after.mandatory_name ≡ st.mandatory_name
IsChecked-kept m st after c h = elim (Bool-cases m.mandatory) [
  | inl e ↦ (let empty = c.first e in cc)
  | inr e ↦ c.optional e
]

AllDeclared-cons :
    (lib : GoLib) (m : PluginMetadata) (ms : List PluginMetadata) (st next after : Declared)
    → Declares lib m st next
    → AllDeclared lib ms next after
    → AllDeclared lib (m ∷ ms) st after
AllDeclared-cons lib m ms st next after d rest =
    let p = publish_all_lem lib m.name [] m.publishes st.published next.published d.publishes in
    let one : (c : String)
        → count c next.names ≡ (if str_eq m.name c then 1 else 0) + count c st.names =
      λ c. ap (count c) d.names in
    record {
      counted = λ c. omega (arith, rest.counted c, one c);
      distinct = λ h. rest.distinct (λ c. elim (Bool-cases (str_eq m.name c)) [
        | inl e ↦
            let none_yet : count c st.names ≡ 0 =
              subst (λ (k : String). count k st.names ≡ 0) (str_eq_sound m.name c e) d.new in
            ground (arith, one c)
        | inr e ↦ ground (arith, one c, h c)
      ]);
      extends = λ s q k. rest.extends s q (p.0 s q k);
      owned = λ s q k. owner s q p.1 (rest.owned s q k);
      own = (
        PublishedBy-Extends m.name next.published after.published m.publishes rest.extends p.2,
        rest.own,
      );
      kept = λ h.
          let same = IsChecked-kept m st next d.checked h in
          rest.kept (subst (λ (k : String). str_eq k "" ≡ false) (sym same) h) ∙ same;
      mandatory = λ t. (
        λ o. (
          d.checked.alone o,
          rest.kept (
                subst (λ (k : String). str_eq k "" ≡ false) (sym (d.checked.named o))
                  (not_empty lib m.name t d.visible))
              ∙ d.checked.named o,
          not_empty lib m.name t d.visible,
        ),
        rest.mandatory t,
      );
    }
  where
    owner :
        (s q : String)
        → OwnedBy m.name st.published next.published
        → (0 < count q (names_of ms)) ⊎ (publisher_of s next.published ≡ some q)
        → (0 < count q (names_of (m ∷ ms))) ⊎ (publisher_of s st.published ≡ some q)
    owner s q o (inl h) = inl (omega arith)
    owner s q o (inr h) = mine (o s q h)
      where
        mine :
            (q ≡ m.name) ⊎ (publisher_of s st.published ≡ some q)
            → (0 < count q (names_of (m ∷ ms))) ⊎ (publisher_of s st.published ≡ some q)
        mine (inl e) = inl (ground (arith, eq_iff m.name q))
        mine (inr e) = inr e

pub declare_all-AllDeclared :
    (lib : GoLib) (ms : List PluginMetadata) (st after : Declared)
    → declare_all lib ms st ≡ ok after
    → AllDeclared lib ms st after
declare_all-AllDeclared lib [] st after h =
    let same : st ≡ after = cc in
    subst (AllDeclared lib [] st) same (record {
      counted = λ c. omega arith;
      distinct = λ k. k;
      extends = λ s p k. k;
      owned = λ s p k. inr k;
      own = tt;
      kept = λ k. refl;
      mandatory = λ t. tt;
    })
declare_all-AllDeclared lib (m ∷ ms) st after h =
    turn (declare lib m st) (λ next k. declare_all-AllDeclared lib ms next after k) refl h
  where
    turn :
        (r : Result Declared)
        → ((next : Declared) → declare_all lib ms next ≡ ok after → AllDeclared lib ms next after)
        → declare lib m st ≡ r
        → then_declared (declare_all lib ms) r ≡ ok after
        → AllDeclared lib (m ∷ ms) st after
    turn (err e) ih q k = cc
    turn (ok next) ih q k =
        AllDeclared-cons lib m ms st next after (declare-Declares lib m st next q) (ih next k)
