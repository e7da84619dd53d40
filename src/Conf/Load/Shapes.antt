-- ===== src/Conf/Load/Shapes.antt =====
-- internal/config/config.go: which fields the environment may replace, and by what.
use prp_sim.Base.{
  if-true, if-false, ℕ, ◌<◌, ◌≡◌, refl, sym, ap, ◌∙◌, subst, ◌⊎◌, inl, inr, true, some, ltb, ltb→lt,
  Bool-cases, Option-cases, Text, codes,
}
use prp_sim.Conf.Results.{Attempt, success, failed, >>=-success, >>-success, success-injective}
use prp_sim.Conf.Load.{
  invalid_env_prp_id, invalid_env_lan_id, invalid_env_role, Settings, System, is_empty, known_role,
  is_lan_id, is_net_id, validate_cidr, override_role, override_lan_id, atoi, override_net_id,
  override_prp_id, override_ip, override_ips, override,
}

override_role-shape :
    (v : Text) (c d : Settings)
    → override_role v c ≡ success d
    → (r : Text) × (d ≡ record c { role = r })
      × (((is_empty v ≡ true) × (r ≡ c.role)) ⊎ (known_role v ≡ some r))
unfolding override_role
override_role-shape v c d h = elim (Bool-cases (is_empty v)) [
  | inl unset ↦ (c.role, success-injective d c (sym h ∙ if-true _ _ _ unset), inl (unset, refl))
  | inr set ↦ elim (Option-cases (known_role v)) [
    | inl unknown ↦ absurd (refused (sym h ∙ rw (set, unknown)))
    | inr (r, at) ↦ (r, success-injective d (record c { role = r }) (sym h ∙ rw (set, at)), inr at)
  ]
]
  where
    refused : ◌≡◌ {A = Attempt Settings} (success d) (failed (invalid_env_role v)) → ⊥
    refused e = cc

override_lan_id-shape :
    (v : Text) (c d : Settings)
    → override_lan_id v c ≡ success d
    → (l : Text) × (d ≡ record c { lan_id = l }) × ((l ≡ c.lan_id) ⊎ (is_lan_id l ≡ true))
unfolding override_lan_id
override_lan_id-shape v c d h = elim (Bool-cases (is_empty v)) [
  | inl unset ↦ (c.lan_id, success-injective d c (sym h ∙ if-true _ _ _ unset), inl refl)
  | inr set ↦ elim (Bool-cases (is_lan_id v)) [
    | inl good ↦
        (v, success-injective d (record c { lan_id = v }) (sym h ∙ rw (set, good)), inr good)
    | inr bad ↦ absurd (refused (sym h ∙ rw (set, bad)))
  ]
]
  where
    refused : ◌≡◌ {A = Attempt Settings} (success d) (failed (invalid_env_lan_id v)) → ⊥
    refused e = cc

override_net_id-shape :
    (v : Text) (c d : Settings)
    → override_net_id v c ≡ success d
    → (n : ℕ) × (d ≡ record c { net_id = n }) × ((n ≡ c.net_id) ⊎ (is_net_id n ≡ true))
unfolding override_net_id
override_net_id-shape v c d h = elim (Bool-cases (is_empty v)) [
  | inl unset ↦ (c.net_id, success-injective d c (sym h ∙ if-true _ _ _ unset), inl refl)
  | inr set ↦ elim (Option-cases (atoi v)) [
    | inl no_number ↦ absurd (refused (sym h ∙ rw (set, no_number)))
    | inr (n, at) ↦ elim (Bool-cases (is_net_id n)) [
      | inl good ↦
          (n, success-injective d (record c { net_id = n }) (sym h ∙ rw (set, at, good)), inr good)
      | inr bad ↦ absurd (refused (sym h ∙ rw (set, at, bad)))
    ]
  ]
]
  where
    refused : ◌≡◌ {A = Attempt Settings} (success d) (failed (invalid_env_prp_id v)) → ⊥
    refused e = cc

override_prp_id-shape :
    (v : Text) (c : Settings)
    → (n : ℕ) × (override_prp_id v c ≡ record c { prp_id = n }) × ((n ≡ c.prp_id) ⊎ (0 < n))
unfolding override_prp_id
override_prp_id-shape v c = elim (Bool-cases (is_empty v)) [
  | inl unset ↦ (c.prp_id, if-true _ _ _ unset, inl refl)
  | inr set ↦ elim (Option-cases (atoi v)) [
    | inl no_number ↦ (c.prp_id, rw (set, no_number), inl refl)
    | inr (n, at) ↦ elim (Bool-cases (ltb 0 n)) [
      | inl good ↦ (n, rw (set, at, good), inr (ltb→lt 0 n good))
      | inr bad ↦ (c.prp_id, rw (set, at, bad), inl refl)
    ]
  ]
]

-- An address of the environment was validated.
abbrev pub IsReplaced : System → Text → Text → Type 0
IsReplaced sys new old = (new ≡ old) ⊎ (validate_cidr sys new ≡ success tt)

override_ip-shape :
    (sys : System) (v ip new : Text) → override_ip sys v ip ≡ success new → IsReplaced sys new ip
unfolding override_ip
override_ip-shape sys v ip new h = elim (Bool-cases (is_empty v)) [
  | inl unset ↦ inl (success-injective new ip (sym h ∙ if-true _ _ _ unset))
  | inr set ↦
      let (valid, same) =
        >>-success (validate_cidr sys v) (success v) new
          (sym (if-false (is_empty v) (success ip) _ set) ∙ h) in
      inr (subst (λ s. validate_cidr sys s ≡ success tt) (success-injective v new same) valid)
]

moved : {T : Type 0} {x y z : T} (P : Type 0) → y ≡ z → (x ≡ y) ⊎ P → (x ≡ z) ⊎ P
moved P e (inl same) = inl (same ∙ e)
moved P e (inr other) = inr other

-- What the environment makes of a configuration.
pub record IsOverride (sys : System) (c d : Settings) : Type 0 where
  pub role : Text
  pub lan_id : Text
  pub net_id : ℕ
  pub prp_id : ℕ
  pub lan_a_ip : Text
  pub lan_b_ip : Text
  pub interlink_ip : Text
  pub same : d ≡ record c {
    role = role;
    lan_id = lan_id;
    net_id = net_id;
    prp_id = prp_id;
    lan_a_ip = lan_a_ip;
    lan_b_ip = lan_b_ip;
    interlink_ip = interlink_ip;
  }
  pub role_from :
      ((is_empty (sys.getenv (codes "PRP_ROLE")) ≡ true) × (role ≡ c.role))
      ⊎ (known_role (sys.getenv (codes "PRP_ROLE")) ≡ some role)
  pub lan_id_from : (lan_id ≡ c.lan_id) ⊎ (is_lan_id lan_id ≡ true)
  pub net_id_from : (net_id ≡ c.net_id) ⊎ (is_net_id net_id ≡ true)
  pub prp_id_from : (prp_id ≡ c.prp_id) ⊎ (0 < prp_id)
  pub lan_a_ip_from : IsReplaced sys lan_a_ip c.lan_a_ip
  pub lan_b_ip_from : IsReplaced sys lan_b_ip c.lan_b_ip
  pub interlink_ip_from : IsReplaced sys interlink_ip c.interlink_ip

pub override-IsOverride :
    (sys : System) (c d : Settings) → override sys c ≡ success d → IsOverride sys c d
unfolding override override_ips
override-IsOverride sys c d h =
    let (c1, e1, h1) = >>=-success (override_role (sys.getenv (codes "PRP_ROLE")) c) _ d h in
    let (c2, e2, h2) = >>=-success (override_lan_id (sys.getenv (codes "HSR_LAN_ID")) c1) _ d h1 in
    let (c3, e3, h3) = >>=-success (override_net_id (sys.getenv (codes "HSR_PRP_ID")) c2) _ d h2 in
    let c4 = override_prp_id (sys.getenv (codes "PRP_PRP_ID")) c3 in
    let (a, ea, ha) =
      >>=-success (override_ip sys (sys.getenv (codes "PRP_LAN_A_IP")) c4.lan_a_ip) _ d h3 in
    let (b, eb, hb) =
      >>=-success (override_ip sys (sys.getenv (codes "PRP_LAN_B_IP")) c4.lan_b_ip) _ d ha in
    let (i, ei, hi) =
      >>=-success (override_ip sys (sys.getenv (codes "PRP_INTERLINK_IP")) c4.interlink_ip) _ d
        hb in
    let (r, s1, from1) = override_role-shape (sys.getenv (codes "PRP_ROLE")) c c1 e1 in
    let (l, s2, from2) = override_lan_id-shape (sys.getenv (codes "HSR_LAN_ID")) c1 c2 e2 in
    let (n, s3, from3) = override_net_id-shape (sys.getenv (codes "HSR_PRP_ID")) c2 c3 e3 in
    let (p, s4, from4) = override_prp_id-shape (sys.getenv (codes "PRP_PRP_ID")) c3 in
    let t2 : c2 ≡ record c { role = r; lan_id = l } =
      s2 ∙ ap (λ (x : Settings). record x { lan_id = l }) s1 in
    let t3 : c3 ≡ record c { role = r; lan_id = l; net_id = n } =
      s3 ∙ ap (λ (x : Settings). record x { net_id = n }) t2 in
    let t4 : c4 ≡ record c { role = r; lan_id = l; net_id = n; prp_id = p } =
      s4 ∙ ap (λ (x : Settings). record x { prp_id = p }) t3 in
    record {
      role = r;
      lan_id = l;
      net_id = n;
      prp_id = p;
      lan_a_ip = a;
      lan_b_ip = b;
      interlink_ip = i;
      same =
          sym (success-injective (record c4 { lan_a_ip = a; lan_b_ip = b; interlink_ip = i }) d hi)
          ∙ ap (λ (x : Settings). record x { lan_a_ip = a; lan_b_ip = b; interlink_ip = i }) t4;
      role_from = from1;
      lan_id_from = moved _ (ap (λ (x : Settings). x.lan_id) s1) from2;
      net_id_from = moved _ (ap (λ (x : Settings). x.net_id) t2) from3;
      prp_id_from = moved _ (ap (λ (x : Settings). x.prp_id) t3) from4;
      lan_a_ip_from =
          moved _ (ap (λ (x : Settings). x.lan_a_ip) t4) (override_ip-shape sys _ _ a ea);
      lan_b_ip_from =
          moved _ (ap (λ (x : Settings). x.lan_b_ip) t4) (override_ip-shape sys _ _ b eb);
      interlink_ip_from =
          moved _ (ap (λ (x : Settings). x.interlink_ip) t4) (override_ip-shape sys _ _ i ei);
    }
