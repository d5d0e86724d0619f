-- ===== src/Octavia/Plan/Members.antt =====
-- What the check of a member establishes (`members` of internal/octavia/plan/plan.go).
use Prim.Native.String.{◌++◌ as str_append}
use dizzy.Prelude.{
  sym, leb, ℕ, ◌≤◌, ◌≡◌, refl, true, false, not, ◌&&◌, String, str_eq, eq_iff, Option, Option-cases,
  none, some, List, map, some_of, ℤ, pos, negsuc, valid, invalid, refuse_if, refuse_if-valid,
  >>-valid, In, refuse_unknown, arith, inl, inr,
}
use dizzy.Octavia.Names.{member_separator, member_name, is_member_name, cut_prefix}
use dizzy.Octavia.Plan.{
  Member, Plan, Parsing, PlanError, claim_name, valid_port, pool_names, member_network, cidr_of,
  in_upper_half, uses, check_address, is_foreign, check_member,
}
use dizzy.Octavia.Plan.Lookup.{
  Reaches, member_network-OnNetwork, OnNetwork-member_network, cidr_of-Says,
}
use dizzy.Octavia.Plan.Fits.{numbered, OnNetwork, AddressFits, MemberFits}
use dizzy.Octavia.Plan.Entries.{claim_name-IsNew, none_of, valid_port-IsPort}

-- A name that the check takes for a member's is one.
is_member_name-numbered :
    (atoi : String → Option ℤ) (member pool : String)
    → is_member_name atoi member pool ≡ true
    → (n : ℕ) × (1 ≤ n) × (member ≡ numbered pool n)
unfolding is_member_name member_name
is_member_name-numbered atoi member pool h =
    elim (Option-cases (cut_prefix member (str_append pool member_separator))) [
      | inl e ↦ absurd (ground (arith, e, h))
      | inr (number, e) ↦ numbered_as (atoi number) (ground (arith, e, h))
    ]
  where
    numbered_as :
        (o : Option ℤ)
        → elim o [
          | none ↦ false
          | some (negsuc n) ↦ false
          | some (pos n) ↦ leb 1 n && str_eq (member_name pool n) member
        ]
          ≡ true
        → (n : ℕ) × (1 ≤ n) × (member ≡ numbered pool n)
    numbered_as none e = cc e
    numbered_as (some (negsuc n)) e = cc e
    numbered_as (some (pos n)) e =
        (n, ground arith, sym ((eq_iff (member_name pool n) member).0 (ground arith)))

module _ (p : Plan) (net : Parsing) where
  upper_half :
      (o : Option net.Prefix) (addr : net.Addr)
      → in_upper_half p net o addr ≡ true
      → (prefix : net.Prefix) × (o ≡ some prefix)
        × (net.contains_addr prefix addr ≡ true)
        × ((128 ≤ net.octet addr) × (net.octet addr ≤ 254))
  unfolding in_upper_half
  upper_half none addr h = cc h
  upper_half (some prefix) addr h = (prefix, refl, ground arith, (ground arith, ground arith))

  uses-Same :
      (o : Member) (network : String) (addr : net.Addr)
      → (member_network p o.pool ≡ network)
        × (a : net.Addr) × (net.parse_addr o.address ≡ some a)
        × (net.same_addr a addr ≡ true)
      → uses p net network addr o ≡ true
  unfolding uses
  uses-Same o network addr (e, a, q, s) =
      let same = (eq_iff (member_network p o.pool) network).1 e in ground (arith, same, q, s)

  address-Fits :
      Reaches p
      → (earlier : List Member) (m : Member) (addr : net.Addr) → In m.pool (pool_names p)
      → net.parse_addr m.address ≡ some addr
      → check_address p net earlier m addr ≡ valid
      → AddressFits net p earlier m
  unfolding check_address
  address-Fits r earlier m addr known parsed h =
      let e2 = (>>-valid _ (refuse_if (some_of _ earlier) _)).0 h in
      let e1 = (>>-valid (refuse_if (not (net.addr_is4 addr)) _) _).0 e2.0 in
      let half =
        upper_half (cidr_of p net p.networks (member_network p m.pool)) addr
          (ground (arith, e1.1)) in
      let network = member_network p m.pool in
      let said = cidr_of-Says p net p.networks network half.0 half.1 in
      record {
        addr = addr;
        prefix = half.0;
        parsed = parsed;
        is4 = ground (arith, e1.0);
        network = network;
        on_network = member_network-OnNetwork p r m.pool known;
        cidr = said.0;
        network_cidr = said.1;
        parsed_cidr = said.2;
        contained = half.2;
        upper = half.3;
        unused =
            none_of (uses p net (member_network p m.pool) addr)
              (λ o.
                OnNetwork p o.pool network
                × (a : net.Addr) × (net.parse_addr o.address ≡ some a)
                × (net.same_addr a addr ≡ true))
              (λ o q.
                uses-Same o network addr
                  (OnNetwork-member_network p r o.pool network q.0, q.1, q.2, q.3))
              earlier ((refuse_if-valid _ _).0 e2.1);
      }

  pub member-Fits :
      Reaches p
      → (earlier : List Member) (m : Member) → check_member p net earlier m ≡ valid
      → MemberFits net p earlier m
  unfolding check_member
  member-Fits r earlier m h =
      let e5 =
        (>>-valid _ (elim (net.parse_addr m.address) [
          | none ↦ invalid (PlanError.bad_address m.name m.address)
          | some addr ↦ check_address p net earlier m addr
        ])).0
          h in
      let e4 = (>>-valid _ (refuse_if (not (valid_port m.port)) _)).0 e5.0 in
      let e3 = (>>-valid _ (refuse_if (not (is_member_name net.atoi m.name m.pool)) _)).0 e4.0 in
      let e2 = (>>-valid _ (refuse_if (is_foreign p net m) _)).0 e3.0 in
      let e1 = (>>-valid (claim_name "member" (map (λ o. o.name) earlier) m.name) _).0 e2.0 in
      let known = (refuse_unknown (pool_names p) m.pool _).0 e1.1 in
      record {
        name = claim_name-IsNew _ _ _ e1.0;
        pool = known;
        number = is_member_name-numbered net.atoi m.name m.pool (ground (arith, e3.1));
        port = valid_port-IsPort m.port _ e4.1;
        address = elim (Option-cases (net.parse_addr m.address)) [
          | inl q ↦ absurd (ground (arith, q, e5.1))
          | inr (addr, q) ↦ address-Fits r earlier m addr known q (ground (arith, q, e5.1))
        ];
      }
