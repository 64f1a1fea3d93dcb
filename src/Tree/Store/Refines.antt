-- ===== src/Tree/Store/Refines.antt =====
-- Sequences of calls on the tree (src/virtualfiletreeitem.cpp), beside the same calls on a function.
use mathlib.Core.Option.{none-ne-some}
use usvfs_fuse.Base.{
  Bool, List, [], ◌∷◌, map, Option, none, some, Bytes, components, All, ◌≡◌, refl, sym, ap, ap₂,
  ◌∙◌, ◌≢◌, subst, arith, Option-cases, inl, inr,
}
use usvfs_fuse.Utils.{Icu}
use usvfs_fuse.Utils.Case.{IsAscii}
use usvfs_fuse.Tree.Item.{Item, ItemType, Info}
use usvfs_fuse.Tree.View.{view, view-some}
use usvfs_fuse.Tree.Order.{IsOrdered}
use usvfs_fuse.Tree.Find.{strip_slash}
use usvfs_fuse.Tree.Find.Walk.{seek}
use usvfs_fuse.Tree.Find.Seen.{keys_of, find_item, seek_nothing}
use usvfs_fuse.Tree.Add.{AddResult, added, refused, null_entry, crash, add}
use usvfs_fuse.Tree.Add.Walk.{lower_name, IsClean}
use usvfs_fuse.Tree.Add.Effect.{last_name, written, add-Updates}
use usvfs_fuse.Tree.Add.Result.{Outcome, succeeds, fails, outcome, expected, but_last, outcome-add}
use usvfs_fuse.Tree.Add.Order.{AddsOrdered, add-AddsOrdered}
use usvfs_fuse.Tree.Erase.{EraseResult, erased, erase}
use usvfs_fuse.Tree.Erase
use usvfs_fuse.Tree.Erase.Effect.{EraseOutcome, erase-EraseOutcome}
use usvfs_fuse.Tree.Erase.Order.{ErasesOrdered, erase-ErasesOrdered}
use usvfs_fuse.Tree.Names.{clean-ne-nil, clean-ne-root}
use usvfs_fuse.Tree.Store.{
  Op, add_item, erase_item, find_path, Answer, shows, IsGiven, after_add, after_erase, info_found,
  call, serve, Store, update, visible, store_add, store_erase, perform, replay,
}

-- The call answers as the operation on the view does, and leaves a tree in order with that view.
abbrev Agrees : Answer × Item → Answer × Store → Type 0
Agrees x y = (x.0 ≡ y.0) × (view x.1 ≡ y.1) × IsOrdered x.1

add-Agrees :
    (icu : Icu) (t : Item) (path real : Bytes) (k : ItemType) (upd : Bool)
    → IsAscii path
    → IsClean (strip_slash path)
    → real ≢ []
    → IsOrdered t
    → Agrees (call icu (add_item path real k upd) t) (perform (add_item path real k upd) (view t))
unfolding call
add-Agrees icu t path real k upd ascii clean given o =
    go (add icu t path real k upd)
      (expected (view t (map lower_name (but_last (components (strip_slash path)))))
        (view t (keys_of path)) upd)
      refl (outcome-add icu t path real k upd ascii clean given)
      (add-AddsOrdered icu t path real k upd o)
  where
    go :
        (r : AddResult) (e : Outcome)
        → add icu t path real k upd ≡ r
        → outcome r ≡ some e
        → AddsOrdered r
        → Agrees (after_add t r) (
            store_add
              (view t)
              (keys_of path)
              (written (view t (keys_of path)) (last_name (components (strip_slash path))) real k)
              e)
    go (refused n) (fails e) h w ordered = (cc, refl, o)
    go (refused n) succeeds h w ordered = absurd (cc)
    go null_entry e h w ordered = absurd (none-ne-some _ w)
    go crash e h w ordered = absurd (none-ne-some _ w)
    go (added t' ks) (fails e) h w ordered = absurd (cc)
    go (added t' ks) succeeds h w ordered =
        let (keys, up) = add-Updates icu t path real k upd t' ks ascii clean given h in
        (
          refl,
          λ i ls.
              subst
                (λ js.
                  view t' ls
                  ≡ update (view t) js
                      (written (view t js) (last_name (components (strip_slash path))) real k) ls)
                keys (up ls) i,
          ordered,
        )

erase-Agrees :
    (icu : Icu) (t : Item) (path : Bytes) (r : Bool)
    → IsAscii path
    → IsClean (strip_slash path)
    → IsOrdered t
    → Agrees (call icu (erase_item path r) t) (perform (erase_item path r) (view t))
unfolding call
erase-Agrees icu t path r ascii clean o =
    go (erase icu t path r) (view t (keys_of path)) refl
      (erase-EraseOutcome icu t path r ascii (clean-ne-nil path clean) o)
      (erase-ErasesOrdered icu t path r o)
  where
    go :
        (e : EraseResult) (there : Option Info)
        → view t (keys_of path) ≡ there
        → EraseOutcome t (keys_of path) r e
        → ErasesOrdered e
        → Agrees (after_erase t e) (store_erase (view t) (keys_of path) r there)
    go (erased t') none h w ordered = absurd (w.0 h)
    go (erased t') (some i) h w ordered = (refl, λ i ls. w.1 ls i, ordered)
    go (Erase.refused n) none h w ordered = (rw w.1 refl, refl, o)
    go (Erase.refused n) (some i) h w ordered = absurd (none-ne-some i (sym w.0 ∙ h))

find-Agrees :
    (icu : Icu) (t : Item) (path : Bytes) (d : Bool)
    → IsAscii path
    → IsClean (strip_slash path)
    → IsOrdered t
    → Agrees (call icu (find_path path d) t) (perform (find_path path d) (view t))
unfolding call
find-Agrees icu t path d ascii clean o = (
  ap shows (
      ap info_found
        (find_item icu t path d ascii (clean-ne-nil path clean) (clean-ne-root path clean))
      ∙ seek-visible t (keys_of path) d),
  refl,
  o,
)
  where
    seek-visible :
        (t : Item) (ks : List Bytes) (d : Bool) → info_found (seek t ks d) ≡ visible (view t ks) d
    seek-visible t ks d = elim (Option-cases (view t ks)) [
      | inl e ↦ rw e (ap info_found (seek_nothing t ks d e))
      | inr (i, e) ↦ let (c, w, same) = view-some t ks i e in ground arith
    ]

call-Agrees :
    (icu : Icu) (op : Op) (t : Item)
    → IsGiven op
    → IsOrdered t
    → Agrees (call icu op t) (perform op (view t))
call-Agrees icu (add_item path real k upd) t (ascii, clean, given) o =
    add-Agrees icu t path real k upd ascii clean given o
call-Agrees icu (erase_item path r) t (ascii, clean) o = erase-Agrees icu t path r ascii clean o
call-Agrees icu (find_path path d) t (ascii, clean) o = find-Agrees icu t path d ascii clean o

-- Any sequence of calls of `add`, `erase` and `find` on a tree in order answers, call by call, as the
-- same calls do on the function from keys to records that the tree shows, and leaves a tree that
-- shows the function that they leave. This is for ASCII paths without empty names behind one leading
-- slash, and for real paths that are not empty.
pub serve_refines :
    (icu : Icu) (ops : List Op) (t : Item)
    → All IsGiven ops
    → IsOrdered t
    → ((serve icu ops t).0 ≡ (replay ops (view t)).0)
      × (view (serve icu ops t).1 ≡ (replay ops (view t)).1)
unfolding serve replay
serve_refines icu [] t given o = (refl, refl)
serve_refines icu (op ∷ ops) t (g, gs) o =
    let (answers, views, ordered) = call-Agrees icu op t g o in
    let (rest, shown) = serve_refines icu ops (call icu op t).1 gs ordered in
    (
      ap₂ ◌∷◌ answers (rest ∙ ap (λ s. (replay ops s).0) views),
      shown ∙ ap (λ s. (replay ops s).1) views,
    )
