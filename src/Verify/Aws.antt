-- ===== src/Verify/Aws.antt =====
-- The pairing of AWS keys in morf/verify/aws.go and `awsPrePass` of morf/verify/verify.go. The
-- signing of the request is an argument.
use Prim.Native.String
use morf.Prelude.{
  ℕ, suc, ◌-◌, String, Bool, true, not, ◌&&◌, ◌||◌, Option, none, some, List, [], ◌∷◌,
  if◌then◌else◌, str_eq, ltb, ◌==◌, any, take, map,
}
use morf.Finding.{SecretModel}
use morf.Worker.Retry.{contains}
use morf.Verify.Providers.{status_active, status_inactive, status_unknown, HttpResponse, Library}
use morf.Verify.Transport.{Client, cache_get, cache_set, do_request, now, tick}

unfoldable pub sts_status : HttpResponse → String
sts_status resp =
    if resp.status_code == 200
    then (if contains resp.text "GetCallerIdentityResponse" || contains resp.text "<Arn>"
        then status_active
        else status_unknown)
    else if resp.status_code == 403
    then (if contains resp.text "InvalidClientTokenId" || contains resp.text "SignatureDoesNotMatch"
        then status_inactive
        else status_unknown)
    else status_unknown

pub record AwsCandidate : Type 0 where
  pub secret : String
  pub same_file : Bool
  pub line_dist : ℕ

abbrev pub distance : ℕ → ℕ → ℕ
distance a b = if ltb a b then b - a else a - b

abbrev pub is_closer : AwsCandidate → AwsCandidate → Bool
is_closer a b =
    if a.same_file
    then not b.same_file || ltb a.line_dist b.line_dist
    else not b.same_file && ltb a.line_dist b.line_dist

-- `sort.SliceStable`
unfoldable pub insert_candidate : AwsCandidate → List AwsCandidate → List AwsCandidate
insert_candidate a [] = a ∷ []
insert_candidate a (b ∷ rest) =
    let later = insert_candidate a rest in if is_closer b a then b ∷ later else a ∷ b ∷ rest

unfoldable pub sort_candidates : List AwsCandidate → List AwsCandidate
unfolding insert_candidate
sort_candidates [] = []
sort_candidates (a ∷ rest) = insert_candidate a (sort_candidates rest)

abbrev pub aws_max_candidates : ℕ
aws_max_candidates = 3

module _ {F : Type 0} (lib : Library) where
  -- the loop over the batch, where `i` is the index of its head
  unfoldable pub gather_candidates :
      SecretModel F → ℕ → ℕ → List String → List (SecretModel F) → List AwsCandidate
  gather_candidates akia akia_idx i seen [] = []
  gather_candidates akia akia_idx i seen (s ∷ rest) =
      let val = lib.trim_space s.secret_string in
      let skipped = gather_candidates akia akia_idx (suc i) seen rest in
      let later = gather_candidates akia akia_idx (suc i) (val ∷ seen) rest in
      if (i == akia_idx)
        || (str_eq val "" || any (str_eq val) seen)
        || (not (lib.is_aws_secret val) || lib.is_akia val)
      then skipped
      else record {
        secret = val;
        same_file = not (str_eq akia.file_location "") && str_eq s.file_location akia.file_location;
        line_dist = distance akia.line_no s.line_no;
      }
        ∷ later

  unfoldable pub collect_aws_secret_candidates :
      SecretModel F → ℕ → List (SecretModel F) → List String
  unfolding gather_candidates sort_candidates
  collect_aws_secret_candidates akia akia_idx secrets =
      map (λ c. c.secret)
        (take aws_max_candidates (sort_candidates (gather_candidates akia akia_idx 0 [] secrets)))

module _ (lib : Library) where
  -- an error is `none`
  unfoldable pub verify_pair : String → String → Client → Option String × Client
  unfolding do_request sts_status
  verify_pair access_key_id secret_key c = elim (lib.sts_request access_key_id secret_key (now c)) [
    | none ↦ (none, tick c)
    | some req ↦
        let (resp, sent) = do_request req (tick c) in
        elim resp [ none ↦ (none, sent) | some r ↦ (some (sts_status r), sent) ]
  ]

  -- the outcome of one candidate, from the cache or from AWS
  unfoldable pub try_candidate : String → String → Client → Option String × Client
  unfolding verify_pair cache_get cache_set
  try_candidate val secret_key c =
      let key = lib.hash (String.◌++◌ val (String.◌++◌ ":" secret_key)) in
      let (cached, asked) = cache_get key c in
      elim cached [
        | some s ↦ (some s, asked)
        | none ↦
            let (outcome, sent) = verify_pair val secret_key asked in
            elim outcome [ none ↦ (none, sent) | some s ↦ (some s, cache_set key s sent) ]
      ]

  unfoldable pub candidate_loop : String → List String → Bool → Bool → Client → String × Client
  unfolding try_candidate
  candidate_loop val [] saw_inactive saw_unknown c =
      (if saw_inactive && not saw_unknown then status_inactive else status_unknown, c)
  candidate_loop val (secret_key ∷ rest) saw_inactive saw_unknown c =
      let (outcome, tried) = try_candidate val secret_key c in
      elim outcome [
        | none ↦ candidate_loop val rest saw_inactive true tried
        | some s ↦
            if str_eq s status_active
            then (status_active, tried)
            else if str_eq s status_inactive
            then candidate_loop val rest true saw_unknown tried
            else candidate_loop val rest saw_inactive true tried
      ]
