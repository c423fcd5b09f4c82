-- ===== src/VpnConfig/Moves/Tidy.antt =====
-- The addresses that a failover has added to its tunnel stay among its clients.
use vpn_director.Prelude.{
  Text, true, false, not, ◌≡◌, sym, ◌∙◌, Option, none, some, List, [], ◌∷◌, arith, text_eq,
  text_eq_iff, contains, contains-keep_if, contains-append, Bool-cases, Option-cases, inl, inr,
}
use vpn_director.VpnConfig.Config.{
  Config, TunnelConfig, XrayFailover, XrayPendingRestore, get_tunnel, collect_clients,
}
use vpn_director.VpnConfig.Address.{addr_key}
use vpn_director.VpnConfig.Failover.{append_new}
use vpn_director.VpnConfig.Moves.{
  stage_xray_clients_to_tunnel, commit_xray_failover, extend_loop, extend_on, extend_xray_failover,
  restore_xray_clients_from_failover, ensure_failover_staged, apply_failover_snapshot,
  apply_snapshot_on,
}
use vpn_director.VpnConfig.Pending.{
  is_appended, stored_loop, snapshot_step, snapshot_loop, nonempty_snapshot, snapshot_of,
  failover_snapshot,
}
use vpn_director.VpnConfig.Moves.Texts.{contains-append_new, contains-new_texts}
use vpn_director.VpnConfig.Moves.Stage.{moved_clients, stage_cases}
use vpn_director.VpnConfig.Moves.Routes.{IsTidy, extend_cases}

-- of one failover
abbrev pub Within : XrayFailover → Type 0
Within fo =
    (added : List Text) (s : Text)
    → fo.added ≡ some added
    → contains added s ≡ true
    → contains fo.clients s ≡ true

pub some-IsTidy : (fo : XrayFailover) → Within fo → IsTidy (some fo)
some-IsTidy fo h = record {
  within =
      λ other added s e a m. let same : fo ≡ other = cc in rw (sym same) (h added s (rw same a) m);
}

pub none-IsTidy : IsTidy none
none-IsTidy = record { within = λ fo added s e a m. absurd (cc) }

pub stage-IsTidy :
    (cfg : Config) (id : Text)
    → IsTidy cfg.xray.failover
    → IsTidy (stage_xray_clients_to_tunnel cfg id).xray.failover
stage-IsTidy cfg id t = elim (stage_cases cfg id) [
  | inl e ↦ rw e t
  | inr (tun, g, f, e) ↦ rw e (
      some-IsTidy _
        (λ added s a m. ground (arith, contains-new_texts tun.clients (moved_clients cfg) s)))
]

pub commit-IsTidy :
    (cfg : Config) → IsTidy cfg.xray.failover → IsTidy (commit_xray_failover cfg).xray.failover
commit-IsTidy cfg t = elim (Option-cases cfg.xray.failover) [
  | inl n ↦
      let e : (commit_xray_failover cfg).xray.failover ≡ none =
        unfold commit_xray_failover in ground arith in
      rw e none-IsTidy
  | inr (fo, f) ↦
      let e : (commit_xray_failover cfg).xray.failover ≡ some (record fo { committed = true }) =
        unfold commit_xray_failover in ground arith in
      rw e (some-IsTidy _ (λ added s a m. t.within fo added s f a m))
]

extend_loop-Within :
    (ips tun : List Text) (fo : XrayFailover) → Within fo → Within (extend_loop ips tun fo).1
unfolding extend_loop
extend_loop-Within [] tun fo h = h
extend_loop-Within (ip ∷ ips) tun fo h =
    extend_loop-Within ips (append_new tun ip) _ (λ added s a m. elim (Option-cases fo.added) [
      | inl n ↦ ground arith
      | inr (b, e) ↦
          ground (arith, h b s e, contains-append_new fo.clients ip s, contains-append_new b ip s)
    ])

pub extend-IsTidy :
    (cfg : Config) → IsTidy cfg.xray.failover → IsTidy (extend_xray_failover cfg).0.xray.failover
unfolding extend_on
extend-IsTidy cfg t = elim (extend_cases cfg) [
  | inl e ↦ rw e t
  | inr (fo, tun, ips, f, g, e) ↦ rw e (
      some-IsTidy _
        (extend_loop-Within ips tun.clients fo (λ added s a m. t.within fo added s f a m)))
]

pub restore-IsTidy :
    (cfg : Config) → IsTidy (restore_xray_clients_from_failover cfg).0.xray.failover
restore-IsTidy cfg =
    let e : (restore_xray_clients_from_failover cfg).0.xray.failover ≡ none =
      unfold restore_xray_clients_from_failover in ground arith in
    rw e none-IsTidy

ensured :
    (cfg : Config) (fo next : XrayFailover)
    → cfg.xray.failover ≡ some fo
    → (ensure_failover_staged cfg).xray.failover ≡ some next
    → (next.clients ≡ fo.clients) × (next.added ≡ fo.added)
unfolding ensure_failover_staged
ensured cfg fo next f e = (ground arith, ground arith)

pub ensure-IsTidy :
    (cfg : Config) → IsTidy cfg.xray.failover → IsTidy (ensure_failover_staged cfg).xray.failover
unfolding ensure_failover_staged
ensure-IsTidy cfg t = record {
  within = λ next added s e a m. elim (Option-cases cfg.xray.failover) [
    | inl n ↦ absurd (ground arith)
    | inr (fo, f) ↦
        let (clients, same) = ensured cfg fo next f e in
        rw clients (t.within fo added s f (sym same ∙ a) m)
  ];
}

-- what the failover of an unfinished restore adds is among its clients, and not empty
abbrev pub Clean : XrayFailover → Type 0
Clean fo =
    (added : List Text) (s : Text)
    → fo.added ≡ some added
    → contains added s ≡ true
    → (contains fo.clients s ≡ true) × (text_eq s [] ≡ false)

snapshot_step-Clean :
    (cfg : Config) (original : XrayFailover) (addr : Text) (snapshot : XrayFailover)
    → Clean snapshot
    → Clean (snapshot_step cfg original addr snapshot)
unfolding snapshot_step contains
snapshot_step-Clean cfg original addr snapshot h added s a m =
    let appended = is_appended original addr in
    let stored = stored_loop (collect_clients cfg) (addr_key addr) original.tunnel appended [] in
    elim (Option-cases snapshot.added) [
      | inl n ↦ (ground (arith, h added s), ground (arith, h added s))
      | inr (b, e) ↦ (
        ground (
          arith,
          h b s e,
          contains-append snapshot.clients (stored ∷ []) s,
          contains-append b (stored ∷ []) s,
        ),
        ground (arith, h b s e, contains-append b (stored ∷ []) s, text_eq_iff stored s),
      )
    ]

snapshot_loop-Clean :
    (cfg : Config) (original : XrayFailover) (restored : List Text) (snapshot : XrayFailover)
    → Clean snapshot
    → Clean (snapshot_loop cfg original restored snapshot)
unfolding snapshot_loop
snapshot_loop-Clean cfg original [] snapshot h = h
snapshot_loop-Clean cfg original (addr ∷ restored) snapshot h =
    snapshot_loop-Clean cfg original restored (snapshot_step cfg original addr snapshot)
      (snapshot_step-Clean cfg original addr snapshot h)

nonempty_snapshot-Clean :
    (fo next : XrayFailover) → Clean fo → nonempty_snapshot fo ≡ some next → Clean next
unfolding nonempty_snapshot
nonempty_snapshot-Clean fo next h e added s a m =
    let same : next ≡ fo = ground arith in rw same (h added s (rw same at a) m)

snapshot_of-Clean :
    (cfg : Config) (original fo : XrayFailover) (restored : List Text)
    → snapshot_of cfg original restored ≡ some fo
    → Clean fo
unfolding snapshot_of contains
snapshot_of-Clean cfg original fo restored e = elim (Bool-cases (text_eq original.tunnel [])) [
  | inl n ↦ absurd (let k : ◌≡◌ {A = Option XrayFailover} none (some fo) = rw n at e in cc)
  | inr n ↦
      nonempty_snapshot-Clean _ fo
        (snapshot_loop-Clean cfg original restored _ (λ added s a m.
          elim (Option-cases original.added) [
            | inl o ↦ (ground arith, ground arith)
            | inr (b, o) ↦ (ground arith, ground arith)
          ]))
        (rw n at e)
]

pub failover_snapshot-Clean :
    (p : XrayPendingRestore) (cfg : Config) (fo : XrayFailover)
    → failover_snapshot p cfg ≡ some fo
    → Clean fo
unfolding failover_snapshot
failover_snapshot-Clean p cfg fo e = elim (Option-cases p.snapshot) [
  | inl n ↦ absurd (ground arith)
  | inr (original, o) ↦ snapshot_of-Clean cfg original fo p.restored (ground arith)
]

apply_snapshot_on-IsTidy :
    (cfg : Config) (fo : XrayFailover) (tun : TunnelConfig)
    → Clean fo
    → IsTidy (apply_snapshot_on cfg fo tun).xray.failover
unfolding apply_snapshot_on
apply_snapshot_on-IsTidy cfg fo tun h = some-IsTidy _ (λ added s a m.
    ground
      (arith, h added s a m, contains-keep_if (λ (ip : Text). not (text_eq ip [])) fo.clients s))

pub reinstate-IsTidy :
    (cfg : Config) (fo : XrayFailover)
    → Clean fo
    → IsTidy cfg.xray.failover
    → IsTidy (apply_failover_snapshot cfg fo).xray.failover
unfolding apply_failover_snapshot
reinstate-IsTidy cfg fo h t = elim (Bool-cases (text_eq fo.tunnel [])) [
  | inl e ↦ rw e t
  | inr e ↦ rw e (elim (Option-cases (get_tunnel cfg.tunnels fo.tunnel)) [
    | inl n ↦ rw n t
    | inr (tun, g) ↦ rw g (apply_snapshot_on-IsTidy cfg fo tun h)
  ])
]
