-- ===== src/Samples/Publication.antt =====
-- Instances of the theorems on the publish algorithm, on the small platform.
use release_me.Prelude.{
  ◌≡◌, ◌≢◌, refl, true, false, [], All, codes, cut_byte, split, parse_uint, ok,
}
use release_me.Semver
use release_me.Publish.Check
use release_me.Publish.Types.{LocalAsset}
use release_me.Publish.Exec.{pure, raise, call, must, modify, gets, fail_if, ◌>>=◌}
use release_me.Publish.Check.{
  add_to, group_from, by_name, group_of, delete_group, group_names, verified_sum, is_verified,
  check_metadata, unexpected_names, hash_stream, check_hash, check_stream, fetch_unless,
  check_bytes, check_or_fetch, compare_group, compare_from, compare_assets,
}
use release_me.Publish.Reconcile.{
  local_of, contains, delete_all, settle, visit, visit_all, upload_answer, upload, upload_done,
  mark_reused, upload_all, reconcile,
}
use release_me.Publish.Run.{
  Outcome, size_error, limit_error, latest_among, with_version, decide_latest, create_draft_answer,
  create_draft, drop_from, drop_other_drafts, reconcile_rounds, publish_answer, before_publish,
  after_publish, publish_draft, check_published, with_existing, raise_some, preflight, run,
}
use release_me.Host.{Asset, is_write}
use release_me.Publish.Log.{Grows}
use release_me.Publish.Compared.{Exact, compare_assets_sound}
use release_me.Publish.Final.{Verified}
use release_me.Publish.Latest.{IsLatest, decide_latest_sound}
use release_me.Publish.Settled.{reconcile_done}
use release_me.Publish.Preflight.{ChecksFirst, run-ChecksFirst}
use release_me.Publish.Published.{run_old}
use release_me.Samples.Platform.{
  assets_of, new_asset, local_file, filled, shop_env, options, files, draft, public_release, fresh,
  released, older,
}

abbrev new_release : Outcome
new_release = record { release = public_release; was_published = false; latest = true }

abbrev old_release : Outcome
old_release = record { release = public_release; was_published = true; latest = false }

new_outcome : (run shop_env options files fresh).0 ≡ ok new_release
unfolding run raise_some preflight with_existing check_published publish_draft after_publish
    before_publish publish_answer reconcile_rounds drop_other_drafts drop_from create_draft
    create_draft_answer decide_latest with_version latest_among limit_error size_error reconcile
    upload_all mark_reused upload_done upload upload_answer visit_all visit settle delete_all
    contains local_of compare_assets compare_from compare_group Check.check check_or_fetch
    check_bytes fetch_unless check_stream check_hash hash_stream unexpected_names check_metadata
    is_verified verified_sum group_names delete_group group_of by_name group_from add_to pure raise
    call must modify gets fail_if ◌>>=◌ Semver.parse_tag cut_byte split parse_uint
new_outcome = refl

old_outcome : (run shop_env options files released).0 ≡ ok old_release
unfolding run raise_some preflight with_existing check_published publish_draft after_publish
    before_publish publish_answer reconcile_rounds drop_other_drafts drop_from create_draft
    create_draft_answer decide_latest with_version latest_among limit_error size_error reconcile
    upload_all mark_reused upload_done upload upload_answer visit_all visit settle delete_all
    contains local_of compare_assets compare_from compare_group Check.check check_or_fetch
    check_bytes fetch_unless check_stream check_hash hash_stream unexpected_names check_metadata
    is_verified verified_sum group_names delete_group group_of by_name group_from add_to pure raise
    call must modify gets fail_if ◌>>=◌ Semver.parse_tag cut_byte split parse_uint
old_outcome = refl

hashed : All (λ a. a.sha256 ≢ []) files
hashed = ((λ h. cc), ((λ h. cc), tt))

run_old_example :
    (false ≡ false)
    × Grows shop_env is_write released (run shop_env options files released).1
    × Verified shop_env public_release true files (run shop_env options files released).1.log
run_old_example =
    run_old shop_env options files hashed released {out = old_release} tt old_outcome refl

run-ChecksFirst_example : ChecksFirst shop_env options files (run shop_env options files) fresh
run-ChecksFirst_example = run-ChecksFirst shop_env options files fresh

compared : (compare_assets shop_env draft (assets_of filled) files true released).0 ≡ ok []
unfolding compare_assets compare_from compare_group Check.check check_or_fetch check_bytes
    fetch_unless check_stream check_hash hash_stream unexpected_names check_metadata is_verified
    verified_sum group_names delete_group group_of by_name group_from add_to pure raise call must
    modify gets fail_if ◌>>=◌
compared = refl

compare_assets_sound_example :
    Exact shop_env draft true
      (assets_of filled)
      files
      (compare_assets shop_env draft (assets_of filled) files true released).1.log
compare_assets_sound_example =
    compare_assets_sound shop_env draft true (assets_of filled) files released tt hashed compared

abbrev one_file : LocalAsset
one_file = local_file (codes "a.txt") (codes "one") 3

abbrev one_asset : Asset
one_asset = new_asset 1 (codes "a.txt") 3

latest_decided : (decide_latest shop_env options older).0 ≡ ok true
unfolding decide_latest with_version latest_among pure raise call must modify gets fail_if ◌>>=◌
    Semver.parse_tag cut_byte split parse_uint Semver.compare_version
latest_decided = refl

decide_latest_sound_example :
    (false ≡ false) × IsLatest shop_env options (decide_latest shop_env options older).1.log
decide_latest_sound_example = decide_latest_sound shop_env options older refl latest_decided

settled : (reconcile shop_env draft true files released).0 ≡ ok true
unfolding reconcile upload_all mark_reused upload_done upload upload_answer visit_all visit settle
    delete_all contains local_of compare_assets compare_from compare_group Check.check
    check_or_fetch check_bytes fetch_unless check_stream check_hash hash_stream unexpected_names
    check_metadata is_verified verified_sum group_names delete_group group_of by_name group_from
    add_to pure raise call must modify gets fail_if ◌>>=◌
settled = refl

reconcile_done_example :
    Grows shop_env is_write released (reconcile shop_env draft true files released).1
reconcile_done_example = reconcile_done shop_env draft true files released settled
