-- ===== src/ReleaseAdmission/Examples/Provided.antt =====
-- What the provider, Git and the parsers answer in the runs of the admission.
use aros_toolchains.Prelude.{
  ℕ, ◌+◌, String, true, false, List, [], ◌∷◌, ◌++◌, Option, none, some, Dict, lookup, ◌<>◌,
  string_eq, nat_eq, list_eq, map,
}
use aros_toolchains.Json.{Value, pos, int, str, bool, array, object}
use aros_toolchains.Sorted.{nat_ord}
use aros_toolchains.Text.Order.{string_ord}
use aros_toolchains.RuntimeLock.Examples.{head, digest, archive, lock}
use aros_toolchains.ReleaseAdmission.Session.{World, Reply, answered, failed}
use aros_toolchains.ReleaseAdmission.Receipt.{Admitted}

abbrev pub own : String
own = "repos/metaneutrons/aros-toolchains"

abbrev runtime : String
runtime = "repos/metaneutrons/aros-tools"

-- The committed files by one byte each, which the decoder knows.
abbrev files : Dict String (List ℕ)
files =
    (".release-please-manifest.json", 1 ∷ [])
    ∷ ("version.txt", 2 ∷ [])
    ∷ ("CHANGELOG.md", 3 ∷ [])
    ∷ ("toolchains/aros-tools-runtime-v1.json", 4 ∷ [])
    ∷ ("toolchains/compiler-sdk-ci-selection-v2.json", 5 ∷ [])
    ∷ (".github/workflows/ci.yml", 6 ∷ [])
    ∷ ("scripts/toolchain/materialize-aros-tools-runtime.py", 7 ∷ [])
    ∷ []

abbrev texts : Dict (List ℕ) String
texts =
    (1 ∷ [], "manifest")
    ∷ (2 ∷ [], "2.0.1")
    ∷ (4 ∷ [], "lock")
    ∷ (5 ∷ [], "selection")
    ∷ (7 ∷ [], "validator")
    ∷ []

abbrev documents : Dict String Value
documents =
    ("manifest", object ((".", str "2.0.1") ∷ []))
    ∷ ("lock", lock)
    ∷ ("selection", object (("tools_commit", str head) ∷ []))
    ∷ []

-- The answers of the provider.
abbrev main_branch : Value
main_branch = object (("protected", bool true) ∷ ("commit", object (("sha", str head) ∷ [])) ∷ [])

abbrev repository : Value
repository = object (("full_name", str "metaneutrons/aros-toolchains") ∷ [])

abbrev pub pull : Value
pull = object (
    ("id", int (pos 5))
    ∷ ("number", int (pos 31))
    ∷ ("title", str "chore(main): release 2.0.1")
    ∷ ("merge_commit_sha", str head)
    ∷ ("state", str "closed")
    ∷ ("merged_at", str "2026-01-02T03:04:05Z")
    ∷ ("user", object (("login", str "metaneutrons-release-please[bot]") ∷ []))
    ∷ ("base", object (("ref", str "main") ∷ ("repo", repository) ∷ []))
    ∷ ("head", object (("ref", str "release-please--branches--main") ∷ ("repo", repository) ∷ []))
    ∷ ("labels", array (object (("name", str "autorelease: pending") ∷ []) ∷ []))
    ∷ [])

abbrev changed : String → Value
changed name = object (("filename", str name) ∷ ("status", str "modified") ∷ [])

abbrev pub policy : Value
policy = object (
    ("id", int (pos 41))
    ∷ ("node_id", str "RRS_41")
    ∷ ("target", str "tag")
    ∷ ("enforcement", str "active")
    ∷ (
      "conditions",
      object (
          (
            "ref_name",
            object (("include", array (str "refs/tags/v*" ∷ [])) ∷ ("exclude", array []) ∷ []),
          )
          ∷ []),
    )
    ∷ (
      "rules",
      array (object (("type", str "update") ∷ []) ∷ object (("type", str "deletion") ∷ []) ∷ []),
    )
    ∷ [])

abbrev bypass : Value
bypass = object (
    (
      "data",
      object (
          (
            "node",
            object (
                ("__typename", str "RepositoryRuleset")
                ∷ ("id", str "RRS_41")
                ∷ ("databaseId", int (pos 41))
                ∷ (
                  "bypassActors",
                  object (
                      ("totalCount", int (pos 0))
                      ∷ ("nodes", array [])
                      ∷ ("pageInfo", object (("hasNextPage", bool false) ∷ []))
                      ∷ []),
                )
                ∷ []),
          )
          ∷ []),
    )
    ∷ [])

abbrev published : ℕ → String → Value
published id name = object (
    ("id", int (pos id))
    ∷ ("name", str name)
    ∷ ("size", int (pos 9))
    ∷ ("digest", str ("sha256:" <> digest))
    ∷ [])

abbrev published_host : ℕ → String → List Value
published_host n target =
    published n (archive target)
    ∷ published (n + 1) (archive target <> ".manifest.json")
    ∷ published (n + 2) (archive target <> ".sigstore.json")
    ∷ published (n + 3) (archive target <> ".manifest.json.sigstore.json")
    ∷ []

abbrev release : Value
release = object (
    ("id", int (pos 77))
    ∷ ("tag_name", str "v1.2.0")
    ∷ ("draft", bool false)
    ∷ ("prerelease", bool false)
    ∷ ("immutable", bool true)
    ∷ (
      "assets",
      array (
          published_host 100 "x86_64-unknown-linux-gnu"
          ++ (published_host 200 "aarch64-unknown-linux-gnu"
              ++ published_host 300 "aarch64-apple-darwin")),
    )
    ∷ [])

abbrev pub run : Value
run = object (
    ("id", int (pos 900))
    ∷ ("run_attempt", int (pos 2))
    ∷ ("name", str "Producer contracts")
    ∷ ("path", str ".github/workflows/ci.yml")
    ∷ ("event", str "push")
    ∷ ("head_branch", str "main")
    ∷ ("head_sha", str head)
    ∷ ("head_repository", repository)
    ∷ ("status", str "completed")
    ∷ ("conclusion", str "success")
    ∷ [])

abbrev pub job : Value
job = object (
    ("id", int (pos 8))
    ∷ ("name", str "contracts")
    ∷ ("status", str "completed")
    ∷ ("conclusion", str "success")
    ∷ [])

abbrev pub answers : Dict String Value
answers =
    (own <> "/branches/main", main_branch)
    ∷ (own <> "/commits/" <> head <> "/pulls?per_page=100&page=1", array (pull ∷ []))
    ∷ (
      own <> "/pulls/31/files?per_page=100&page=1",
      array (
          changed ".release-please-manifest.json"
          ∷ changed "version.txt"
          ∷ changed "CHANGELOG.md"
          ∷ []),
    )
    ∷ (own <> "/pulls?state=closed&base=main&per_page=100&page=1", array (pull ∷ []))
    ∷ (
      own <> "/rulesets?includes_parents=true&targets=tag&per_page=100&page=1",
      array (policy ∷ []),
    )
    ∷ (own <> "/rulesets/41", policy)
    ∷ (runtime <> "/releases/77", release)
    ∷ (
      runtime <> "/git/ref/tags/v1.2.0",
      object (("object", object (("type", str "tag") ∷ ("sha", str head) ∷ [])) ∷ []),
    )
    ∷ (
      runtime <> "/git/tags/" <> head,
      object (
          ("tag", str "v1.2.0")
          ∷ ("object", object (("type", str "commit") ∷ ("sha", str head) ∷ []))
          ∷ []),
    )
    ∷ (
      runtime <> "/git/commits/" <> head,
      object (
          ("sha", str head)
          ∷ ("tree", object (("sha", str head) ∷ []))
          ∷ ("committer", object (("date", str "2023-11-14T22:13:20Z") ∷ []))
          ∷ []),
    )
    ∷ (
      own <> "/actions/workflows/ci.yml/runs?event=push&branch=main&head_sha=" <> head
          <> "&per_page=100&page=1",
      object (("workflow_runs", array (run ∷ [])) ∷ []),
    )
    ∷ (own <> "/actions/runs/900", run)
    ∷ (own <> "/actions/runs/900/attempts/2", run)
    ∷ (
      own <> "/actions/runs/900/attempts/2/jobs?per_page=100&page=1",
      object (("jobs", array (job ∷ [])) ∷ []),
    )
    ∷ (
      own,
      object (
          ("full_name", str "metaneutrons/aros-toolchains")
          ∷ ("archived", bool false)
          ∷ ("disabled", bool false)
          ∷ ("default_branch", str "main")
          ∷ []),
    )
    ∷ (own <> "/releases?per_page=100&page=1", array [])
    ∷ []

abbrev pub reply_of : Option Value → Reply
reply_of none = failed (some "404")
reply_of (some value) = answered value

abbrev pub world : World
world = record {
  head = head;
  is_clean = true;
  show = λ path. lookup path files;
  repository = "metaneutrons/aros-toolchains";
  ref = "refs/heads/main";
  event_name = "workflow_dispatch";
  event_file = none;
  decode = λ raw. lookup raw texts;
  loads = λ text. lookup text documents;
  sha256 = λ raw. digest;
  timestamp = λ date. some (pos 1700000000);
  reply = λ n path. reply_of (lookup path answers);
  reply_bypass = λ n node. answered bypass;
  now = λ n. 1700000100 + n;
}

abbrev pub found : Admitted
found = record {
  commit = head;
  version = "2.0.1";
  pull_request = 31;
  run = record { run_id = 900; number = 2 };
  governance = object (
      ("ruleset_id", int (pos 41))
      ∷ ("policy_sha256", str digest)
      ∷ ("checked_at", int (pos 1700000107))
      ∷ []);
  digests = map (λ e. (e.0, digest)) files;
}
