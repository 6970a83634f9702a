-- ===== src/Fat/DirLaws.antt =====
-- Searching a directory is searching the entries of its whole chain.
use Prim.Native.Nat.{bit_and}
use taavi_os.Common.{
  ℕ, zero, suc, ◌+◌, ◌*◌, ◌<◌, ◌≤◌, ◌≡◌, refl, sym, subst, ap, ap₂, ◌∙◌, inl, inr, Bool, true,
  false, Bool-cases, arith, Option, none, some, List, [], ◌∷◌, ◌++◌, length, length-drop, take,
  take-append_left, drop, get_or, leb, ◌==◌, if◌then◌else◌,
}
use taavi_os.Ledger.Types.{Allocator}
use taavi_os.Strings.Text.{memcmp}
use taavi_os.Fat.Volume.{Drive, Fs, cluster_eoc_min}
use taavi_os.Fat.Cluster.{Vol, cluster_size, max_dir_entries, read_cluster, next_cluster}
use taavi_os.Fat.Entry.{IsLaidOut}
use taavi_os.Fat.SetLaws.{with_buffer-some}
use taavi_os.Fat.Chain.{
  append_read-some, chain_data, IsChain, HasSectors, HasMemory, HasBuffers, chain_data-same,
  length-read_cluster,
}
use taavi_os.Fat.FileLaws.{next_cluster-keeps, next_cluster-entry, next_cluster-heap}
use taavi_os.Fat.Dir.{
  Dirent, dirent_free, dirent_deleted, long_file_name, dirent_at, DirScan, is_same, scan_entries,
  SearchResult, search_on, search_round, search_loop, search_dir,
}

-- Two runs of entries, one after the other.
abbrev scan_after : DirScan → DirScan → DirScan
scan_after DirScan.ended s = DirScan.ended
scan_after (DirScan.found e) s = DirScan.found e
scan_after DirScan.not_here s = s

-- Bytes of the first list.
get_or-append : (a b : List ℕ) (i : ℕ) → i < length a → get_or (a ++ b) i 0 ≡ get_or a i 0
get_or-append [] b i h = absurd (omega (arith, h))
get_or-append (x ∷ a) b zero h = refl
get_or-append (x ∷ a) b (suc i) h = get_or-append a b i (omega (arith, h))

drop-append_left : (n : ℕ) (a b : List ℕ) → n ≤ length a → drop n (a ++ b) ≡ drop n a ++ b
drop-append_left zero a b h = refl
drop-append_left (suc n) [] b h = absurd (omega (arith, h))
drop-append_left (suc n) (x ∷ a) b h = drop-append_left n a b (omega (arith, h))

-- An entry that stands in the first list.
dirent_at-append : (a b : List ℕ) → 32 ≤ length a → dirent_at (a ++ b) ≡ dirent_at a
unfolding dirent_at
dirent_at-append a b h =
    let g : (i : ℕ) → i < 32 → get_or (a ++ b) i 0 ≡ get_or a i 0 =
      λ i l. get_or-append a b i (omega (arith, h, l)) in
    rw
      (
        g 11 (omega arith),
        g 20 (omega arith),
        g 21 (omega arith),
        g 26 (omega arith),
        g 27 (omega arith),
        g 28 (omega arith),
        g 29 (omega arith),
        g 30 (omega arith),
        g 31 (omega arith),
      )
      refl

-- The tests of the inner loop, with what comes after the first run.
scan_after-entry :
    (free deleted long same : Bool) (e : Dirent) (r s : DirScan)
    → (if free
        then DirScan.ended
        else (if deleted
            then scan_after r s
            else (if long
                then scan_after r s
                else (if same then DirScan.found e else scan_after r s))))
      ≡ scan_after
          (if free
            then DirScan.ended
            else (if deleted
                then r
                else (if long then r else (if same then DirScan.found e else r))))
          s
scan_after-entry true deleted long same e r s = refl
scan_after-entry false true long same e r s = refl
scan_after-entry false false true same e r s = refl
scan_after-entry false false false true e r s = refl
scan_after-entry false false false false e r s = refl

scan_entries-append :
    (m k : ℕ) (a b name : List ℕ)
    → length a ≡ 32 * m
    → scan_entries (m + k) (a ++ b) name
      ≡ scan_after (scan_entries m a name) (scan_entries k b name)
unfolding scan_entries
scan_entries-append zero k [] b name len = ap (λ n. scan_entries n b name) (omega arith)
scan_entries-append zero k (x ∷ a) b name len = absurd (omega (arith, len))
scan_entries-append (suc m) k a b name len =
    let h : 32 ≤ length a = omega (arith, len) in
    let l : length (drop 32 a) ≡ 32 * m = (let d = length-drop 32 a in omega (arith, d, len)) in
    let q : suc m + k ≡ suc (m + k) = omega arith in
    let after = scan_entries-append m k (drop 32 a) b name l in
    ap (λ n. scan_entries n (a ++ b) name) q
    ∙ rw
        (
          get_or-append a b 0 (omega (arith, h)),
          get_or-append a b 11 (omega (arith, h)),
          take-append_left 11 a b (omega (arith, h)),
          dirent_at-append a b h,
          drop-append_left 32 a b h,
          after,
        )
        (scan_after-entry (get_or a 0 0 == dirent_free) (get_or a 0 0 == dirent_deleted)
          (bit_and (get_or a 11 0) long_file_name == long_file_name)
          (is_same (memcmp 11 (take 11 a) name)) (dirent_at a) (scan_entries m (drop 32 a) name)
          (scan_entries k b name))

-- The entry of a directory whose bytes are `b`.
abbrev pub entry_found : DirScan → Option Dirent
entry_found (DirScan.found e) = some e
entry_found _ = none

times_suc : (k m : ℕ) → m + k * m ≡ suc k * m
times_suc k m = grind arith

module _ (al : Allocator) (dr : Drive) where
  open al use {Heap, kmalloc, kfree}
  open dr use {Disk, read_sector, write_sector}

  -- A round, from what comes after its cluster.
  search_on-result :
      (s after : DirScan) (next : ℕ) (v v1 : Vol al dr) (rest : SearchResult × Vol al dr)
      → (leb cluster_eoc_min next ≡ true → entry_found after ≡ none)
      → (leb cluster_eoc_min next ≡ false → rest.0 ≡ some (entry_found after))
      → (search_on al dr s next v v1 rest).0 ≡ some (entry_found (scan_after s after))
  unfolding search_on
  search_on-result DirScan.ended after next v v1 rest a b = refl
  search_on-result (DirScan.found e) after next v v1 rest a b = refl
  search_on-result DirScan.not_here after next v v1 rest a b =
      elim (Bool-cases (leb cluster_eoc_min next)) [
        | inl y ↦ rw y (ap some (sym (a y)))
        | inr y ↦ rw y (b y)
      ]

  -- The entries of a directory of `n` clusters.
  abbrev pub scan_chain : Fs → ℕ → List ℕ → List ℕ → DirScan
  scan_chain fs n b name83 = scan_entries (n * max_dir_entries fs) b name83

  search_loop-scan_chain :
      (n c : ℕ) (cs name : List ℕ) (v : Vol al dr) (b : List ℕ)
      → HasSectors al dr
      → HasMemory al dr (cluster_size v.fs) (length (c ∷ cs)) v.heap
      → IsLaidOut v.fs
      → IsChain al dr v.fs v.disk (c ∷ cs)
      → chain_data al dr v (c ∷ cs) ≡ some b
      → length (c ∷ cs) ≤ n
      → (search_loop al dr n c name v).0
        ≡ some (entry_found (scan_chain v.fs (length (c ∷ cs)) b name))
  unfolding search_loop search_round
  search_loop-scan_chain zero c cs name v b sized mem fits chain e le = absurd (omega (arith, le))
  search_loop-scan_chain (suc n) c [] name v b sized (_, some_a, mem) fits (inside, eoc) e le =
      let (next, v1) = next_cluster al dr c v in
      let rest = search_loop al dr n next name v1 in
      let mx = max_dir_entries v.fs in
      let (b1, b2, e1, e2, q) = append_read-some (read_cluster al dr c v) (some []) b e in
      let len : length b1 ≡ 32 * mx =
        (let l = length-read_cluster al dr c v b1 sized e1 in omega (arith, l)) in
      let last : leb cluster_eoc_min next ≡ true =
        (let h = next_cluster-entry al dr c v some_a fits inside in ground (arith, h, eoc)) in
      ap (λ o. (search_round al dr o name next v v1 rest).0) e1
      ∙ search_on-result (scan_entries mx b1 name) (scan_entries 0 b2 name) next v v1 rest
          (λ _. refl) (λ f. let g : true ≡ false = sym last ∙ f in cc)
      ∙ ap (λ s. some (entry_found s)) (sym (scan_entries-append mx 0 b1 b2 name len))
      ∙ ap₂ (λ n x. some (entry_found (scan_entries n x name))) (omega arith) (sym q)
  search_loop-scan_chain (suc n) c (c' ∷ cs) name v b sized (_, some_a, mem) fits
        (inside, link, more, chain) e le =
      let (next, v1) = next_cluster al dr c v in
      let (f1, d1) = next_cluster-keeps al dr c v in
      let rest = search_loop al dr n next name v1 in
      let mx = max_dir_entries v.fs in
      let k = length (c' ∷ cs) in
      let (b1, b2, e1, e2, q) =
        append_read-some (read_cluster al dr c v) (chain_data al dr v (c' ∷ cs)) b e in
      let len : length b1 ≡ 32 * mx =
        (let l = length-read_cluster al dr c v b1 sized e1 in omega (arith, l)) in
      let to : next ≡ c' = next_cluster-entry al dr c v some_a fits inside ∙ link in
      let goes_on : leb cluster_eoc_min next ≡ false = ground (arith, to, more) in
      let found_later : rest.0 ≡ some (entry_found (scan_chain v.fs k b2 name)) =
        ap (λ x. (search_loop al dr n x name v1).0) to
        ∙ search_loop-scan_chain n c' cs name v1 b2 sized
            (next_cluster-heap al dr c (length (c' ∷ cs)) v some_a mem)
            (subst IsLaidOut (sym f1) fits)
            (subst (λ d. IsChain al dr v1.fs d (c' ∷ cs)) (sym d1)
              (subst (λ (f : Fs). IsChain al dr f v.disk (c' ∷ cs)) (sym f1) chain))
            (chain_data-same al dr (c' ∷ cs) v v1 f1 d1 ∙ e2) (omega (arith, le))
        ∙ ap (λ (f : Fs). some (entry_found (scan_chain f k b2 name))) f1 in
      ap (λ o. (search_round al dr o name next v v1 rest).0) e1
      ∙ search_on-result (scan_entries mx b1 name) (scan_chain v.fs k b2 name) next v v1 rest
          (λ f. let g : true ≡ false = sym f ∙ goes_on in cc) (λ _. found_later)
      ∙ ap (λ s. some (entry_found s)) (sym (scan_entries-append mx (k * mx) b1 b2 name len))
      ∙ ap₂ (λ n x. some (entry_found (scan_entries n x name))) (times_suc k mx) (sym q)

  -- On a volume that is laid out and a chain of clusters that can be read, with fuel for each of them,
  -- where sectors have 512 bytes and `kmalloc` gives the buffers that this call asks for (one, and while it is
  -- held one more for each cluster, given back in between), `__fat32_search_dir` ends with the first entry
  -- of that name in the bytes of all the clusters, taken as one array of entries, or with STATUS_ERROR
  -- where there is none before the end.
  pub search_dir-scan_chain :
      (n c : ℕ) (cs name : List ℕ) (v : Vol al dr) (b : List ℕ)
      → HasSectors al dr
      → HasBuffers al dr (cluster_size v.fs) (length (c ∷ cs)) v.heap
      → IsLaidOut v.fs
      → IsChain al dr v.fs v.disk (c ∷ cs)
      → chain_data al dr v (c ∷ cs) ≡ some b
      → length (c ∷ cs) ≤ n
      → (search_dir al dr n c name v).0
        ≡ some (entry_found (scan_chain v.fs (length (c ∷ cs)) b name))
  unfolding search_dir
  search_dir-scan_chain n c cs name v b sized (a, some_a, mem) fits chain e le =
      let v1 : Vol al dr = record v { heap = (kmalloc (cluster_size v.fs) v.heap).1 } in
      with_buffer-some al dr (some none) (search_loop al dr n c name) v a some_a
      ∙ search_loop-scan_chain n c cs name v1 b sized mem fits chain
          (chain_data-same al dr (c ∷ cs) v v1 refl refl ∙ e) le
