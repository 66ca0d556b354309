-- ===== src/App/Clients.antt =====
-- apps/game-client-app/main.cpp: the clients that the constructor of the program keeps.
use mathlib.Core.Path.{subst}
use mathlib.Core.List.{append_assoc, append-nil}
use bcp_concept_prototype.Prelude.{
  ℕ, zero, suc, ◌+◌, ◌≤◌, ◌≡◌, refl, sym, ap, ◌∙◌, List, [], ◌∷◌, ◌++◌, arith, length,
  length-append, ◌⊎◌, inl, inr,
}
use bcp_concept_prototype.App.{Exception, Throws, returns, throws}
use bcp_concept_prototype.App.GameClient.{
  AppConfig, ClientMachine, create_client, create_clients, set_up,
}

length-snoc : {A : Type 0} (xs : List A) (x : A) → length (xs ++ (x ∷ [])) ≡ length xs + 1
length-snoc xs x = length-append xs (x ∷ [])

module _ (m : ClientMachine) (c : AppConfig) where
  -- No constructor and no start() of a client throws.
  pub record NoThrows : Type 0 where
    pub made : (w : m.World) → (cli : m.Client) × ((m.new_client c w).1 ≡ returns cli)
    pub started :
        (i : ℕ) (cli : m.Client) (w : m.World)
        → (cli' : m.Client) × ((m.start_client i cli w).1 ≡ returns cli')

  create_client-length :
      (i : ℕ) (clients : List m.Client) (w : m.World)
      → (length clients ≤ length (create_client m c i clients w).0)
        × (length (create_client m c i clients w).0 ≤ length clients + 1)
  unfolding create_client
  create_client-length i clients w = grind (arith, length-snoc)

  create_client_all :
      (i : ℕ) (clients : List m.Client) (w : m.World)
      → NoThrows
      → length (create_client m c i clients w).0 ≡ length clients + 1
  unfolding create_client
  create_client_all i clients w h =
      let (cli, e) = h.made w in
      let (cli', f) = h.started i cli (m.new_client c w).0 in
      rw (create_client, e, f) (length-snoc clients cli')

  create_clients-length :
      (left i : ℕ) (clients : List m.Client) (w : m.World)
      → length (create_clients m c left i clients w).0 ≤ length clients + left
  unfolding create_clients
  create_clients-length zero i clients w = omega arith
  create_clients-length (suc left) i clients w =
      let (clients', w') = create_client m c i clients w in
      omega
        (arith, create_clients-length left (suc i) clients' w', create_client-length i clients w)

  create_clients_all :
      (left i : ℕ) (clients : List m.Client) (w : m.World)
      → NoThrows
      → length (create_clients m c left i clients w).0 ≡ length clients + left
  unfolding create_clients
  create_clients_all zero i clients w h = omega arith
  create_clients_all (suc left) i clients w h =
      let (clients', w') = create_client m c i clients w in
      omega (arith, create_clients_all left (suc i) clients' w' h, create_client_all i clients w h)

  -- the world in which the first client is made
  abbrev pub logged : m.World → m.World
  logged w =
      m.log_file (m.format "%s/%%y-%%m-%%d/game-client-%d.log" c.log_dir (m.config_node_id c))
        (m.create_directories c w)

  -- The constructor of the game client program keeps at most as many clients as the configuration
  -- asks for: an exception of one client does not keep the others from being made.
  pub set_up-length : (w : m.World) → length (set_up m c w).0 ≤ c.client_cnt
  unfolding set_up
  set_up-length w = omega (arith, create_clients-length c.client_cnt 0 [] (logged w))

  -- Where no constructor and no start() of a client throws, the program keeps as many clients as
  -- the configuration asks for.
  pub set_up_all : (w : m.World) → NoThrows → length (set_up m c w).0 ≡ c.client_cnt
  unfolding set_up
  set_up_all w h = omega (arith, create_clients_all c.client_cnt 0 [] (logged w) h)

  -- The clients i, i + 1, ..., as many as are left, that are made and started in turn, from a world
  -- to a later one: a client is kept where neither its constructor nor its start() throws.
  pub data Started : ℕ → ℕ → m.World → List m.Client → m.World → Type 0 where
    done : {i : ℕ} {w : m.World} → Started i 0 w [] w
    kept :
        {i left : ℕ} {w w₁ w₂ w₃ : m.World} {cli cli' : m.Client} {clients : List m.Client}
        → m.new_client c w ≡ (w₁, returns cli)
        → m.start_client i cli w₁ ≡ (w₂, returns cli')
        → Started (suc i) left w₂ clients w₃
        → Started i (suc left) w (cli' ∷ clients) w₃
    not_made :
        {i left : ℕ} {w w₁ w₂ : m.World} {e : Exception} {clients : List m.Client}
        → m.new_client c w ≡ (w₁, throws e)
        → Started (suc i) left w₁ clients w₂
        → Started i (suc left) w clients w₂
    not_started :
        {i left : ℕ} {w w₁ w₂ w₃ : m.World} {cli : m.Client} {e : Exception}
        {clients : List m.Client}
        → m.new_client c w ≡ (w₁, returns cli)
        → m.start_client i cli w₁ ≡ (w₂, throws e)
        → Started (suc i) left w₂ clients w₃
        → Started i (suc left) w clients w₃

  -- What one client adds to the list.
  create_client_cases :
      (i : ℕ) (clients : List m.Client) (w : m.World)
      → ((w₁ : m.World) × (e : Exception) × (m.new_client c w ≡ (w₁, throws e))
          × (create_client m c i clients w ≡ (clients, w₁)))
        ⊎ ((w₁ : m.World) × (cli : m.Client) × (m.new_client c w ≡ (w₁, returns cli))
            × (((w₂ : m.World) × (e : Exception) × (m.start_client i cli w₁ ≡ (w₂, throws e))
                  × (create_client m c i clients w ≡ (clients, w₂)))
                ⊎ ((w₂ : m.World) × (cli' : m.Client) × (m.start_client i cli w₁
                      ≡ (w₂, returns cli'))
                    × (create_client m c i clients w ≡ (clients ++ (cli' ∷ []), w₂)))))
  unfolding create_client
  create_client_cases i clients w = elim (result (m.new_client c w)) [
    | inl (w₁, e, made) ↦
        inl (w₁, e, made, rw (create_client, ap (λ r. r.1) made, ap (λ r. r.0) made) refl)
    | inr (w₁, cli, made) ↦ elim (result (m.start_client i cli w₁)) [
      | inl (w₂, e, started) ↦ inr (w₁, cli, made, inl (w₂, e, started, both made started))
      | inr (w₂, cli', started) ↦ inr (w₁, cli, made, inr (w₂, cli', started, both made started))
    ]
  ]
    where
      result :
          (r : m.World × Throws m.Client)
          → ((v : m.World) × (e : Exception) × (r ≡ (v, throws e)))
            ⊎ ((v : m.World) × (cli : m.Client) × (r ≡ (v, returns cli)))
      result (v, throws e) = inl (v, e, refl)
      result (v, returns cli) = inr (v, cli, refl)

      both :
          {w₁ w₂ : m.World} {cli : m.Client} {r : Throws m.Client}
          → m.new_client c w ≡ (w₁, returns cli)
          → m.start_client i cli w₁ ≡ (w₂, r)
          → create_client m c i clients w
            ≡ elim r [ throws e ↦ (clients, w₂) | returns d ↦ (clients ++ (d ∷ []), w₂) ]
      both {w₁ = w₁} {w₂ = w₂} {cli = cli} {r = throws e} made started =
          let s : m.start_client i cli (m.new_client c w).0 ≡ (w₂, throws e) =
            ap (λ v. m.start_client i cli v) (ap (λ r. r.0) made) ∙ started in
          rw (create_client, ap (λ r. r.1) made, ap (λ r. r.1) s, ap (λ r. r.0) s) refl
      both {w₁ = w₁} {w₂ = w₂} {cli = cli} {r = returns d} made started =
          let s : m.start_client i cli (m.new_client c w).0 ≡ (w₂, returns d) =
            ap (λ v. m.start_client i cli v) (ap (λ r. r.0) made) ∙ started in
          rw (create_client, ap (λ r. r.1) made, ap (λ r. r.1) s, ap (λ r. r.0) s) refl

  create_clients-next :
      (left i : ℕ) (clients clients' : List m.Client) (w w' : m.World)
      → create_client m c i clients w ≡ (clients', w')
      → create_clients m c (suc left) i clients w ≡ create_clients m c left (suc i) clients' w'
  unfolding create_clients
  create_clients-next left i clients clients' w w' e = rw (create_clients, e) refl

  create_clients_from :
      (left i : ℕ) (clients : List m.Client) (w : m.World)
      → (more : List m.Client) × (w' : m.World) × Started i left w more w'
        × (create_clients m c left i clients w ≡ (clients ++ more, w'))
  unfolding create_clients
  create_clients_from zero i clients w = ([], w, done, ap (λ l. (l, w)) (sym (append-nil clients)))
  create_clients_from (suc left) i clients w = elim (create_client_cases i clients w) [
    | inl (w₁, e, made, one) ↦
        let (more, w', rest, all) = create_clients_from left (suc i) clients w₁ in
        (more, w', not_made made rest, create_clients-next left i clients clients w w₁ one ∙ all)
    | inr (w₁, cli, made, inl (w₂, e, started, one)) ↦
        let (more, w', rest, all) = create_clients_from left (suc i) clients w₂ in
        (
          more,
          w',
          not_started made started rest,
          create_clients-next left i clients clients w w₂ one ∙ all,
        )
    | inr (w₁, cli, made, inr (w₂, cli', started, one)) ↦
        let (more, w', rest, all) = create_clients_from left (suc i) (clients ++ (cli' ∷ [])) w₂ in
        (
          cli' ∷ more,
          w',
          kept made started rest,
          create_clients-next left i clients (clients ++ (cli' ∷ [])) w w₂ one
              ∙ all
              ∙ ap (λ l. (l, w')) (append_assoc clients (cli' ∷ []) more),
        )
  ]

  -- The loop of the constructor makes and starts as many clients as it is told to.
  pub create_clients-Started :
      (left i : ℕ) (w : m.World)
      → let (clients, w') = create_clients m c left i [] w in Started i left w clients w'
  create_clients-Started left i w =
      let (more, w', all, e) = create_clients_from left i [] w in
      subst (λ r. Started i left w r.0 r.1) (sym e) all
