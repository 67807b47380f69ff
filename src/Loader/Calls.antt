-- ===== src/Loader/Calls.antt =====
-- src/pyscripts/runtime/loader.py: a call that begins or ends, a drain and a load, as changes of the
-- store and the registry.
use pyscripts.Base.{
  ℕ, suc, ◌-◌, true, false, none, some, List, ◌≡◌, ◌≢◌, refl, sym, ap, ◌∙◌, arith, inl, inr,
  string_eq, nat_eq, pair_eq, ◌==◌,
}
use native.Mathlib.Decide.{ℕ_discrete}
use pyscripts.Base.Dict.{
  Dict, get, put, pop, get-put_self, get-put_ne, get-put_cases, get-pop, put-NodupKeys,
  pop-NodupKeys,
}
use pyscripts.Loader.{LoadedVersion, Key, key_of, is_ready, counted_up, cleared}
use pyscripts.Loader.Registered.{
  Inv, is_live, calls_in, calls_in-put, calls_in-pop, calls_in-some, kept-Inv, gone-Inv,
  counted-update,
}
use pyscripts.Loader.{drained, TaskType, new_version}
use pyscripts.Base.{String}

-- A call begins in an object.
pub start-Inv :
    (O : Dict ℕ LoadedVersion) (V : Dict Key ℕ) (calls : Dict ℕ ℕ) (c id : ℕ) (v : LoadedVersion)
    → Inv O V calls
    → get O id ≡ some v
    → is_ready v.state ≡ true
    → get calls c ≡ none
    → Inv (put O id (counted_up v)) V (put calls c id)
start-Inv O V calls c id v inv at on free =
    let at' = get-put_self O id (counted_up v) in
    let others = λ (j : ℕ) (ne : j ≢ id). get-put_ne O id j (counted_up v) ne in
    kept-Inv O (put O id (counted_up v)) V id v (counted_up v) at at' others refl (ground arith)
      calls inv (put calls c id) (put-NodupKeys calls c id inv.distinct)
      (counted-update O _ id (counted_up v) calls (put calls c id) at' others
        (ground (arith, inv.counted id v at, calls_in-put id c id calls free))
        (λ j ne. ground (arith, calls_in-put j c id calls free)) inv.counted)
      (λ b j h. elim (get-put_cases calls c b id j h) [
        | inl (_, e) ↦ (λ q. cc (sym at, ap (get O) e))
        | inr (_, old) ↦ inv.held b j old
      ])
      (ground arith)

abbrev pub ended : LoadedVersion → LoadedVersion
ended v = record v { inflight = v.inflight - 1 }

-- A call ends in an object: there is one less in it, and as many in the others.
module _ (O : Dict ℕ LoadedVersion) (V : Dict Key ℕ) (calls : Dict ℕ ℕ) (c id : ℕ)
    (v : LoadedVersion) (inv : Inv O V calls) (at : get O id ≡ some v)
    (busy : get calls c ≡ some id) where
  pub inflight_pos : v.inflight ≡ suc (calls_in id (pop calls c))
  inflight_pos = inv.counted id v at ∙ ground (arith, calls_in-pop id c id calls inv.distinct busy)

  pub call-live : is_live v ≡ true
  call-live = ground (arith, inflight_pos)

  left_elsewhere : (j : ℕ) → j ≢ id → calls_in j (pop calls c) ≡ calls_in j calls
  left_elsewhere j ne = ground (arith, calls_in-pop j c id calls inv.distinct busy)

  left_held : (b j : ℕ) → get (pop calls c) b ≡ some j → get O j ≢ none
  left_held b j h = inv.held b j (ground (arith, get-pop calls c b))

  pub end_kept-Inv : is_live (ended v) ≡ true → Inv (put O id (ended v)) V (pop calls c)
  end_kept-Inv on =
      let at' = get-put_self O id (ended v) in
      let others = λ (j : ℕ) (ne : j ≢ id). get-put_ne O id j (ended v) ne in
      kept-Inv O _ V id v (ended v) at at' others refl call-live calls inv (pop calls c)
        (pop-NodupKeys calls c inv.distinct)
        (counted-update O _ id (ended v) calls (pop calls c) at' others
          (ground (arith, inflight_pos)) left_elsewhere inv.counted)
        left_held on

  pub end_gone-Inv :
      is_live (ended v) ≡ false
      → Inv (put (put O id (ended v)) id (cleared (ended v))) (pop V (key_of v)) (pop calls c)
  end_gone-Inv off =
      let at' = get-put_self (put O id (ended v)) id (cleared (ended v)) in
      let others = λ (j : ℕ) (ne : j ≢ id).
        get-put_ne (put O id (ended v)) id j (cleared (ended v)) ne
        ∙ get-put_ne O id j (ended v) ne in
      gone-Inv O _ V id v (cleared (ended v)) at at' others refl call-live calls inv (pop calls c)
        (pop-NodupKeys calls c inv.distinct)
        (counted-update O _ id (cleared (ended v)) calls (pop calls c) at' others
          (ground (arith, inflight_pos)) left_elsewhere inv.counted)
        left_held off

-- A version is drained.
module _ (O : Dict ℕ LoadedVersion) (V : Dict Key ℕ) (calls : Dict ℕ ℕ) (id : ℕ) (v : LoadedVersion)
    (inv : Inv O V calls) (at : get O id ≡ some v) (on : is_live v ≡ true) where
  pub drain_kept-Inv : (v.inflight == 0) ≡ false → Inv (put O id (drained v)) V calls
  drain_kept-Inv busy =
      let at' = get-put_self O id (drained v) in
      let others = λ (j : ℕ) (ne : j ≢ id). get-put_ne O id j (drained v) ne in
      kept-Inv O _ V id v (drained v) at at' others refl on calls inv calls inv.distinct
        (counted-update O _ id (drained v) calls calls at' others (inv.counted id v at)
          (λ j ne. refl) inv.counted)
        inv.held (ground (arith, busy))

  pub drain_gone-Inv :
      (v.inflight == 0) ≡ true
      → Inv (put (put O id (drained v)) id (cleared (drained v))) (pop V (key_of v)) calls
  drain_gone-Inv idle =
      let at' = get-put_self (put O id (drained v)) id (cleared (drained v)) in
      let others = λ (j : ℕ) (ne : j ≢ id).
        get-put_ne (put O id (drained v)) id j (cleared (drained v)) ne
        ∙ get-put_ne O id j (drained v) ne in
      gone-Inv O _ V id v (cleared (drained v)) at at' others refl on calls inv calls inv.distinct
        (counted-update O _ id (cleared (drained v)) calls calls at' others (inv.counted id v at)
          (λ j ne. refl) inv.counted)
        inv.held (ground (arith, idle))

-- A version is loaded, as a new object.
pub load-Inv :
    (O : Dict ℕ LoadedVersion) (V : Dict Key ℕ) (calls : Dict ℕ ℕ) (k : Key) (id : ℕ)
    (runners : Dict String TaskType) (codecs : List String)
    → Inv O V calls
    → get O id ≡ none
    → get V k ≡ none
    → Inv (put O id (new_version k runners codecs)) (put V k id) calls
load-Inv O V calls k id runners codecs inv free unused = record {
  live = λ j u h l. elim (get-put_cases O id j (new_version k runners codecs) u h) [
    | inl (ji, e) ↦
        ap (λ t. get (put V k id) (key_of t)) (sym e) ∙ get-put_self V k id ∙ ap some (sym ji)
    | inr (ji, old) ↦
        let there = inv.live j u old l in
        let apart : key_of u ≢ k = (λ q. cc (sym there, ap (get V) q)) in
        get-put_ne V k (key_of u) id apart ∙ there
  ];
  registered = λ q j h. elim (get-put_cases V k q id j h) [
    | inl (qk, e) ↦ (
      new_version k runners codecs,
      ap (get (put O id (new_version k runners codecs))) (sym e)
          ∙ get-put_self O id (new_version k runners codecs),
      sym qk,
      refl,
    )
    | inr (qk, old) ↦
        let (u, at, ku, lu) = inv.registered q j old in
        (
          u,
          get-put_ne O id j (new_version k runners codecs) (λ e. cc (sym at, ap (get O) e)) ∙ at,
          ku,
          lu,
        )
  ];
  counted = λ j u h. elim (get-put_cases O id j (new_version k runners codecs) u h) [
    | inl (ji, e) ↦
        ap LoadedVersion.inflight (sym e) ∙ sym no_calls ∙ ap (λ i. calls_in i calls) (sym ji)
    | inr (ji, old) ↦ inv.counted j u old
  ];
  held = λ c j h e. elim (ℕ_discrete j id) [
    | yes ji ↦ cc (
      sym (get-put_self O id (new_version k runners codecs)),
      ap (get (put O id (new_version k runners codecs))) ji,
    )
    | no ne ↦ inv.held c j h (sym (get-put_ne O id j (new_version k runners codecs) ne) ∙ e)
  ];
  distinct = inv.distinct;
}
  where
    no_calls : calls_in id calls ≡ 0
    no_calls = elim (ℕ_discrete (calls_in id calls) 0) [
      | yes e ↦ e
      | no ne ↦
          let (c, busy) = calls_in-some id calls inv.distinct ne in absurd (inv.held c id busy free)
    ]
