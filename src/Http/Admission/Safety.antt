-- ===== src/Http/Admission/Safety.antt =====
-- What an admitted peer has shown.
use boardwalk.Common.{
  ℕ, Bool, true, false, Option, none, some, List, [], ◌∷◌, ◌++◌, Str, codes, ◌=s◌, eq-of_some,
  =s_iff, keep, if◌then◌else◌, Result, ok, err, ◌>>=◌, Any, inl, inr, ◌≡◌, refl, sym, ◌∙◌, ap,
  subst, arith,
}
use boardwalk.Peer.Capabilities.{PeerCapabilities, intersection, contains, is_empty}
use boardwalk.Peer.Capabilities.Lattice.{contains_right}
use boardwalk.Peer.Tokens.{verify}
use boardwalk.Peer.Admitted.{AdmittedPeerConnection, token_bound}
use boardwalk.Http.Admission.{
  Headers, PeerAdmissionConfig, Denied, peer_token_id_header, peer_node_id_header,
  peer_node_name_header, optional_header, or_deny, required_header, bearer_token, if_some,
  verified_admissions, find_route, check_node, requested_capabilities, negotiate, admit_with_token,
  admit_peer_connection, with_token_id, with_bearer, with_verified, with_config, with_node,
  with_pin, with_request, admitted_as,
}

bind_ok :
    {A B : Type 0} (r : Result Denied A) (f : A → Result Denied B) (b : B)
    → (r >>= f) ≡ ok b
    → (a : A) × (r ≡ ok a) × (f a ≡ ok b)
bind_ok (ok a) f b h = (a, refl, h)
bind_ok (err e) f b h = ground arith

ok-inj : {A : Type 0} (a b : A) (r : Result Denied A) → r ≡ ok a → r ≡ ok b → a ≡ b
ok-inj a b (ok c) h k = ground arith
ok-inj a b (err e) h k = ground arith

or_deny_ok :
    {A : Type 0} (o : Option A) (status : ℕ) (reason : Str) (a : A)
    → or_deny o status reason ≡ ok a
    → o ≡ some a
or_deny_ok (some x) status reason a h = ground arith
or_deny_ok none status reason a h = ground arith

if_some_ok :
    {A : Type 0} (xs : List A) (reason : Str) (ys : List A) → if_some xs reason ≡ ok ys → xs ≡ ys
if_some_ok [] reason ys h = ground arith
if_some_ok (x ∷ xs) reason ys h = ground arith

Any-keep :
    {A : Type 0} (p : A → Bool) (a : A) (xs : List A)
    → Any (λ x. x ≡ a) (keep p xs)
    → Any (λ x. x ≡ a) xs × (p a ≡ true)
Any-keep p a [] h = absurd h
Any-keep p a (x ∷ xs) h = by_test (p x) refl (Any-keep p a xs) h
  where
    by_test :
        (b : Bool)
        → p x ≡ b
        → (Any (λ y. y ≡ a) (keep p xs) → Any (λ y. y ≡ a) xs × (p a ≡ true))
        → Any (λ y. y ≡ a) (if b then x ∷ keep p xs else keep p xs)
        → Any (λ y. y ≡ a) (x ∷ xs) × (p a ≡ true)
    by_test true e more (inl here) = (inl here, subst (λ y. p y ≡ true) here e)
    by_test true e more (inr later) = let (among, passes) = more later in (inr among, passes)
    by_test false e more later = let (among, passes) = more later in (inr among, passes)

find_route-some :
    (route : Str) (configs : List PeerAdmissionConfig) (config : PeerAdmissionConfig)
    → find_route route configs ≡ some config
    → Any (λ x. x ≡ config) configs × ((config.allowed_route_name =s route) ≡ true)
unfolding find_route
find_route-some route [] config h = ground arith
find_route-some route (x ∷ xs) config h =
    by_test (x.allowed_route_name =s route) refl (find_route-some route xs config) h
  where
    by_test :
        (b : Bool)
        → (x.allowed_route_name =s route) ≡ b
        → (find_route route xs ≡ some config
            → Any (λ y. y ≡ config) xs × ((config.allowed_route_name =s route) ≡ true))
        → (if b then some x else find_route route xs) ≡ some config
        → Any (λ y. y ≡ config) (x ∷ xs) × ((config.allowed_route_name =s route) ≡ true)
    by_test true e more k =
        let same : x ≡ config = eq-of_some k in
        (inl same, subst (λ y. (y.allowed_route_name =s route) ≡ true) same e)
    by_test false e more k = let (among, named) = more k in (inr among, named)

-- The token id and the secret of a verified admission.
verified_from :
    (admissions : List PeerAdmissionConfig) (token_id bearer : Str)
    (verified : List PeerAdmissionConfig) (config : PeerAdmissionConfig)
    → verified_admissions admissions token_id bearer ≡ ok verified
    → Any (λ x. x ≡ config) verified
    → Any (λ x. x ≡ config) admissions
      × (config.token_id ≡ token_id)
      × (verify config.secret bearer ≡ true)
unfolding verified_admissions
verified_from admissions token_id bearer verified config h among =
    let has_token : PeerAdmissionConfig → Bool = λ c. c.token_id =s token_id in
    let has_secret : PeerAdmissionConfig → Bool = λ c. verify c.secret bearer in
    let (matches, first, second) =
      bind_ok (if_some (keep has_token admissions) (codes "unknown peer token id"))
        (λ token_matches. if_some (keep has_secret token_matches) (codes "invalid bearer token"))
        verified h in
    let is_kept =
      if_some_ok (keep has_token admissions) (codes "unknown peer token id") matches first in
    let is_left =
      if_some_ok (keep has_secret matches) (codes "invalid bearer token") verified second in
    let (matched, secret) =
      Any-keep has_secret config matches (subst (Any (λ x. x ≡ config)) (sym is_left) among) in
    let (known, token) =
      Any-keep has_token config admissions (subst (Any (λ x. x ≡ config)) (sym is_kept) matched) in
    (known, (=s_iff config.token_id token_id).0 token, secret)

-- A pinned node id, if there is one, is the one that the peer gives.
abbrev pub IsPinned : Option Str → Str → Type 0
IsPinned none node_id = Unit
IsPinned (some expected) node_id = expected ≡ node_id

check_node_ok :
    (config : PeerAdmissionConfig) (node_id : Str)
    → check_node config node_id ≡ ok tt
    → IsPinned config.expected_node_id node_id
unfolding check_node
check_node_ok config node_id h = by_pin config.expected_node_id h
  where
    by_pin :
        (o : Option Str)
        → elim o as (λ x. Result Denied Unit) [
          | none ↦ ok tt
          | some expected ↦
              if expected =s node_id
              then ok tt
              else err (record { status = 403; reason = codes "peer node id mismatch" })
        ]
          ≡ ok tt
        → IsPinned o node_id
    by_pin none k = tt
    by_pin (some expected) k = ground (arith, =s_iff expected node_id)

negotiate_ok :
    (config : PeerAdmissionConfig) (requested negotiated : PeerCapabilities)
    → negotiate config requested ≡ ok negotiated
    → (negotiated ≡ intersection requested config.allowed_capabilities)
      × (is_empty negotiated ≡ false)
unfolding negotiate
negotiate_ok config requested negotiated h =
    by_test (is_empty (intersection requested config.allowed_capabilities)) refl h
  where
    by_test :
        (b : Bool)
        → is_empty (intersection requested config.allowed_capabilities) ≡ b
        → if◌then◌else◌ {A = Result Denied PeerCapabilities} b
            (err (record { status = 403; reason = codes "peer capabilities are not allowed" }))
            (ok (intersection requested config.allowed_capabilities))
          ≡ ok negotiated
        → (negotiated ≡ intersection requested config.allowed_capabilities)
          × (is_empty negotiated ≡ false)
    by_test true e k = ground arith
    by_test false e k =
        let same =
          ok-inj (intersection requested config.allowed_capabilities) negotiated (ok negotiated)
            (sym k) refl in
        (sym same, subst (λ c. is_empty c ≡ false) same e)

-- What is shown for an admission: the token and secret of a configuration for the route, and the node
-- id that it pins.
pub record IsAdmitted {Uuid : Type 0} (peer_name : Str) (connection_id : Uuid) (headers : Headers)
    (admissions : List PeerAdmissionConfig) (a : AdmittedPeerConnection Uuid) : Type 0 where
  pub config : PeerAdmissionConfig
  pub requested : PeerCapabilities
  pub bearer : Str
  pub node_id : Str
  pub known : Any (λ x. x ≡ config) admissions
  pub token : optional_header headers peer_token_id_header ≡ some config.token_id
  pub has_bearer : bearer_token headers ≡ some bearer
  pub secret : verify config.secret bearer ≡ true
  pub route : config.allowed_route_name ≡ peer_name
  pub node : optional_header headers peer_node_id_header ≡ some node_id
  pub pinned : IsPinned config.expected_node_id node_id
  pub asked : requested_capabilities headers ≡ ok requested
  pub negotiated : a.negotiated_capabilities ≡ intersection requested config.allowed_capabilities
  pub within : contains config.allowed_capabilities a.negotiated_capabilities ≡ true
  pub some_left : is_empty a.negotiated_capabilities ≡ false
  pub same_route : a.route_name ≡ peer_name
  pub same_token : a.token_id ≡ some config.token_id
  pub same_node : a.node_id ≡ some node_id
  pub same_connection : a.connection_id ≡ connection_id

module _ {Uuid : Type 0} where
  with_token :
      (peer_name : Str) (connection_id : Uuid) (headers : Headers)
      (admissions : List PeerAdmissionConfig) (a : AdmittedPeerConnection Uuid)
      → admit_with_token peer_name connection_id headers admissions ≡ ok a
      → IsAdmitted peer_name connection_id headers admissions a
  unfolding admit_with_token required_header token_bound
  with_token peer_name connection_id headers admissions a h =
      let (token_id, h0, k0) =
        bind_ok
          (or_deny (optional_header headers peer_token_id_header) 401
            (codes "missing peer token id"))
          (with_token_id peer_name connection_id headers admissions) a h in
      let (bearer, h1, k1) =
        bind_ok (or_deny (bearer_token headers) 401 (codes "missing bearer token"))
          (with_bearer peer_name connection_id headers admissions token_id) a k0 in
      let (verified, h2, k2) =
        bind_ok (verified_admissions admissions token_id bearer)
          (with_verified peer_name connection_id headers token_id) a k1 in
      let (config, h3, k3) =
        bind_ok
          (or_deny (find_route peer_name verified) 403 (codes "peer token is not valid for route"))
          (with_config peer_name connection_id headers token_id) a k2 in
      let (node_id, h4, k4) =
        bind_ok (required_header headers peer_node_id_header)
          (with_node peer_name connection_id headers token_id config) a k3 in
      let (pinned, h5, k5) =
        bind_ok (check_node config node_id)
          (with_pin peer_name connection_id headers token_id config node_id) a k4 in
      let (requested, h6, k6) =
        bind_ok (requested_capabilities headers)
          (with_request peer_name connection_id headers token_id config node_id) a k5 in
      let (negotiated, h7, k7) =
        bind_ok (negotiate config requested)
          (admitted_as peer_name connection_id headers token_id config node_id) a k6 in
      let (among, routed) = find_route-some peer_name verified config (
        or_deny_ok (find_route peer_name verified) 403 (codes "peer token is not valid for route")
          config h3) in
      let (known, token, secret) =
        verified_from admissions token_id bearer verified config h2 among in
      let (is_common, some_left) = negotiate_ok config requested negotiated h7 in
      let same =
        ok-inj
          (token_bound peer_name token_id connection_id node_id
            (optional_header headers peer_node_name_header) config.allowed_capabilities negotiated)
          a (ok a) (sym k7) refl in
      let common : a.negotiated_capabilities ≡ intersection requested config.allowed_capabilities =
        ap (λ x. x.negotiated_capabilities) (sym same) ∙ is_common in
      record {
        config = config;
        requested = requested;
        bearer = bearer;
        node_id = node_id;
        known = known;
        token =
            or_deny_ok (optional_header headers peer_token_id_header) 401
              (codes "missing peer token id") token_id h0
            ∙ ap some (sym token);
        has_bearer = or_deny_ok (bearer_token headers) 401 (codes "missing bearer token") bearer h1;
        secret = secret;
        route = (=s_iff config.allowed_route_name peer_name).0 routed;
        node =
            or_deny_ok (optional_header headers peer_node_id_header) 400
              (codes "missing " ++ peer_node_id_header) node_id h4;
        pinned = check_node_ok config node_id h5;
        asked = h6;
        negotiated = common;
        within =
            subst (λ c. contains config.allowed_capabilities c ≡ true) (sym common)
              (contains_right requested config.allowed_capabilities);
        some_left = subst (λ x. is_empty x.negotiated_capabilities ≡ false) same some_left;
        same_route = subst (λ x. x.route_name ≡ peer_name) same refl;
        same_token = subst (λ x. x.token_id ≡ some config.token_id) same (ap some (sym token));
        same_node = subst (λ x. x.node_id ≡ some node_id) same refl;
        same_connection = subst (λ x. x.connection_id ≡ connection_id) same refl;
      }

  -- Where at least one admission is configured, a peer is admitted only if it shows the token id and
  -- the secret of one of them, that one is for the route that it asks for, and a node id that it pins
  -- is the one that the peer gives. What it may do is then what it asked for as far as the
  -- configuration allows it, which is not nothing; the policy for local development has no say.
  pub admit_peer_connection-IsAdmitted :
      (peer_name : Str) (connection_id : Uuid) (headers : Headers) (config : PeerAdmissionConfig)
      (configs : List PeerAdmissionConfig) (policy : Option PeerCapabilities)
      (a : AdmittedPeerConnection Uuid)
      → admit_peer_connection peer_name connection_id headers (config ∷ configs) policy ≡ ok a
      → IsAdmitted peer_name connection_id headers (config ∷ configs) a
  unfolding admit_peer_connection
  admit_peer_connection-IsAdmitted peer_name connection_id headers config configs policy a h =
      with_token peer_name connection_id headers (config ∷ configs) a h
