-- ===== src/Session/InfoOnce.antt =====
-- The version that `PrepareDriverInfo` of go/connection.go keeps, and the placeholders of its inserts.
use adbc_driver_mariadb.Base.{ℕ, inl, inr, ◌≡◌, ◌≢◌, refl, ap, ◌∙◌, [], ◌∷◌}
use adbc_driver_mariadb.Base.Text.{Bytes}
use adbc_driver_mariadb.Base.Result.{Result, ok, Result-cases}
use adbc_driver_mariadb.Session.Server.{Done, pass, wrap, Server}
use adbc_driver_mariadb.Session.Inversion.{bind-ok}
use adbc_driver_mariadb.Session.Info.{version_text, on_session, fetch_version, prepare_driver_info}

cons-no_nil : (c : ℕ) (cs : Bytes) → ◌≢◌ {A = Bytes} (c ∷ cs) []
cons-no_nil c cs e = cc

module _ (srv : Server)
    (query_version query_version' : srv.State → Result Bytes (Bytes × Bytes) × srv.State)
    (register_vendor_version : Bytes → srv.State → Result Bytes Done × srv.State) where
  -- With a version, the method asks the server nothing.
  prepare-known :
      (c : ℕ) (cs : Bytes) (s : srv.State)
      → prepare_driver_info srv query_version register_vendor_version (c ∷ cs, s)
        ≡ prepare_driver_info srv query_version' register_vendor_version (c ∷ cs, s)
  unfolding prepare_driver_info
  prepare-known c cs s = elim (Result-cases (srv.clear_pending s).0) [
    | inl (u, e) ↦ rw e refl
    | inr (f, e) ↦ rw e refl
  ]

  version_text-Known : (version comment : Bytes) → version_text version comment ≢ []
  version_text-Known [] comment e = cc
  version_text-Known (c ∷ version) comment e = cc

  fetch-known :
      (v v' : Bytes) (s s' : srv.State)
      → fetch_version srv query_version register_vendor_version v (v, s) ≡ (ok tt, (v', s'))
      → v' ≢ []
  fetch-known [] v' s s' h e =
      let (found, p, _, k) =
        bind-ok
          (on_session srv query_version register_vendor_version
            (wrap "failed to get version" query_version))
          _ ([], s) h in
      version_text-Known found.0 found.1 (ap (λ p. p.1.0) k ∙ e)
  fetch-known (c ∷ cs) v' s s' h e = cons-no_nil c cs (ap (λ p. p.1.0) h ∙ e)

  -- After a call that succeeded the version is there.
  prepare-keeps :
      (v v' : Bytes) (s s' : srv.State)
      → prepare_driver_info srv query_version register_vendor_version (v, s) ≡ (ok tt, (v', s'))
      → v' ≢ []
  unfolding prepare_driver_info
  prepare-keeps v v' s s' h e =
      let (_, (v1, s1), h1, k1) =
        bind-ok (on_session srv query_version register_vendor_version (pass srv.clear_pending)) _
          (v, s) h in
      let (_, (v2, s2), h2, k2) =
        bind-ok (fetch_version srv query_version register_vendor_version v1) _ (v1, s1) k1 in
      fetch-known v1 v2 s1 s2 h2 (ap (λ p. p.1.0) k2 ∙ e)

  same_after :
      (v : Bytes) (s : srv.State)
      → v ≢ []
      → prepare_driver_info srv query_version register_vendor_version (v, s)
        ≡ prepare_driver_info srv query_version' register_vendor_version (v, s)
  same_after [] s h = absurd (h refl)
  same_after (c ∷ cs) s h = prepare-known c cs s

  -- After a call of `PrepareDriverInfo` that succeeded, the server is not asked for its version again:
  -- another call from any later session does the same whatever the server would answer.
  prepare_driver_info-once :
      (v v' : Bytes) (s s' s'' : srv.State)
      → prepare_driver_info srv query_version register_vendor_version (v, s) ≡ (ok tt, (v', s'))
      → prepare_driver_info srv query_version register_vendor_version (v', s'')
        ≡ prepare_driver_info srv query_version' register_vendor_version (v', s'')
  prepare_driver_info-once v v' s s' s'' h = same_after v' s'' (prepare-keeps v v' s s' h)
