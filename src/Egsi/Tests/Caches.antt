-- ===== src/Egsi/Tests/Caches.antt =====
-- A disk with one entry and one temporary file, a cache on it, and the theorems at them.
use iclr.Base.{
  ℕ, ◌≡◌, refl, arith, true, false, Option, none, some, List, [], length, ◌==◌, Result, ok, err,
  if◌then◌else◌,
}
use iclr.Base.Integers.{pos}
use iclr.Base.Texts.{codes, starts_with}
use iclr.Egsi.Teacher.Cache.Answers.{IsAnswered, generate-IsAnswered}
use iclr.Egsi.Teacher.Cache.Bounded.{IsBounded, is_os_error, read_entry_at-IsBounded}
use iclr.Egsi.Teacher.Cache.Directory.{open_components, open_directory}
use iclr.Egsi.Teacher.Cache.Entry.{
  is_cache_file, read_chunks, read_open, read_expected, read_entry_once_at, read_attempts,
  read_entry_at,
}
use iclr.Egsi.Teacher.Cache.Keys.{provenance_is_valid, cache_key, path_for, path_for-injective}
use iclr.Egsi.Teacher.Cache.Outcomes.{Runs, Any}
use iclr.Egsi.Teacher.Cache.Released.{atomic_write_at-Runs}
use iclr.Egsi.Teacher.Cache.Releases.{is_write_failure}
use iclr.Egsi.Teacher.Cache.Run.{Fault, file_not_found, Info, System, Run}
use iclr.Egsi.Teacher.Cache.Store.{
  Codec, Teacher, decoded, read_response, read, write, has_requested_identity, answer, generate,
}
use iclr.Egsi.Teacher.Cache.Write.{
  serialized_response, destination_token_at, unlink_temporary_at, check_temporary, settle_replace,
  replace_entry, confirm, accept_temporary, install, write_temporary, atomic_write_at,
}
use iclr.Egsi.Teacher.Responses.{
  Text, TeacherRequest, TeacherResponse, response_fields_are_valid, teacher_response_commitment,
  response_is_valid,
}
use iclr.Egsi.Teacher.Retries.{
  Reply, transport_error, response, is_retried, conclude, post_from, post_json, IsConcluded,
  post_json-IsConcluded,
}
use iclr.Egsi.Tests.Episodes.{sixty_four}
use iclr.Json.{end}

pub record Disk : Type 0 where
  pub entry : Option (List ℕ)
  pub temporary : Option (List ℕ)
  pub unread : List ℕ

-- The file of a name, and that of a descriptor.
abbrev file : Text → Disk → Option (List ℕ)
file name disk = if starts_with name (codes ".") then disk.temporary else disk.entry

abbrev file_of : ℕ → Disk → Option (List ℕ)
file_of fd disk = if fd == 5 then disk.temporary else disk.entry

abbrev info_of : ℕ → Option (List ℕ) → Result Fault Info
info_of ino none = err file_not_found
info_of ino (some body) = ok (record {
  dev = 1;
  ino = ino;
  mode = 33152;
  nlink = 1;
  size = length body;
  mtime_ns = 7;
  ctime_ns = 7;
})

abbrev number : Text → ℕ
number name = if starts_with name (codes ".") then 5 else 4

abbrev or_empty : Option (List ℕ) → List ℕ
or_empty none = []
or_empty (some body) = body

abbrev found : ℕ → Option (List ℕ) → Result Fault ℕ
found fd none = err file_not_found
found fd (some body) = ok fd

abbrev system : System Disk
system = record {
  stat_at = λ directory_fd name disk. (info_of (number name) (file name disk), disk);
  open_root = λ disk. (ok 3, disk);
  open_directory_at = λ fd name disk. (err file_not_found, disk);
  open_at = λ directory_fd name disk.
      (found (number name) (file name disk), record disk { unread = or_empty (file name disk) });
  mkdir_at = λ fd name disk. (ok tt, disk);
  fstat = λ fd disk. (info_of fd (file_of fd disk), disk);
  read = λ fd n disk. (ok disk.unread, record disk { unread = [] });
  close = λ fd disk. (ok tt, disk);
  create_at = λ directory_fd name disk. (ok 5, record disk { temporary = some [] });
  write = λ fd raw disk. (ok tt, record disk { temporary = some raw });
  replace_at = λ directory_fd temporary name disk.
      (ok tt, record disk { entry = disk.temporary; temporary = none });
  unlink_at = λ directory_fd name disk. (ok tt, record disk { temporary = none });
  fsync = λ fd disk. (ok tt, disk);
  token_hex = λ disk. (codes "00112233445566778899aabbccddeeff", disk);
}

abbrev empty_run : Run Disk
empty_run = record { world = record { entry = none; temporary = none; unread = [] }; held = [] }

abbrev entry_name : Text
entry_name = codes "entry.json"

read_entry_at-IsBounded_example : Runs IsBounded is_os_error (read_entry_at system 3 entry_name)
read_entry_at-IsBounded_example = read_entry_at-IsBounded system 3 entry_name

atomic_write_at-Runs_example :
    Runs Any is_write_failure (atomic_write_at system 3 entry_name (codes "{}"))
atomic_write_at-Runs_example = atomic_write_at-Runs system 3 entry_name (codes "{}")

abbrev given : TeacherResponse
given = record {
  provider_request_id = none;
  provider = codes "p";
  model = codes "m";
  requested_model = codes "m";
  provider_response_model = codes "m-1";
  text = codes "{}";
  usage = [];
  latency_is_valid = true;
  cached = false;
  response_commitment_sha256 =
      codes "sha256:aaaaaaaaaaaaaaaaaaaaaaaaaaaaaaaaaaaaaaaaaaaaaaaaaaaaaaaaaaaaaaaa";
}

abbrev codec : Codec
codec = record {
  digest = λ r. sixty_four;
  key_digest = λ provider model request provenance. some sixty_four;
  dump = λ r. codes "{}";
  parse = λ raw. some given;
}

abbrev teacher : Teacher Disk
teacher = record {
  provider = codes "p";
  model = codes "m";
  cache_identity = none;
  ask = λ request disk. (some given, disk);
}

abbrev request : TeacherRequest
request = record {
  system = codes "s";
  user = codes "u";
  schema = end;
  temperature_is_finite = true;
  max_tokens = 8192;
}

generate_returns : (generate system codec [] teacher request empty_run).0 ≡ ok given
unfolding generate cache_key provenance_is_valid read path_for open_directory open_components
    read_response decoded answer has_requested_identity write serialized_response response_is_valid
    response_fields_are_valid teacher_response_commitment atomic_write_at write_temporary
    accept_temporary install confirm replace_entry settle_replace check_temporary
    unlink_temporary_at destination_token_at read_entry_at read_attempts read_entry_once_at
    read_expected read_open read_chunks is_cache_file
generate_returns = refl

generate-IsAnswered_example : IsAnswered system codec [] teacher request empty_run given
generate-IsAnswered_example =
    generate-IsAnswered system codec [] teacher request empty_run given generate_returns

-- A gateway timeout, a transport error, and then a success.
abbrev answers : ℕ → Reply
answers n = if n == 0 then response 504 else (if n == 1 then transport_error else response 201)

post_json_stops : post_json answers (pos 3) ≡ (ok 201, 3)
unfolding post_json post_from is_retried conclude
post_json_stops = refl

post_json-IsConcluded_example : IsConcluded answers 0 3 (post_json answers (pos 3))
post_json-IsConcluded_example = post_json-IsConcluded answers 3 (omega arith)

abbrev key : Text
key = codes "sha256:aaaaaaaaaaaaaaaaaaaaaaaaaaaaaaaaaaaaaaaaaaaaaaaaaaaaaaaaaaaaaaaa"

abbrev key_file : Text
key_file = codes "aaaaaaaaaaaaaaaaaaaaaaaaaaaaaaaaaaaaaaaaaaaaaaaaaaaaaaaaaaaaaaaa.json"

key_has_file : path_for key ≡ some key_file
unfolding path_for
key_has_file = refl

path_for-injective_example : key ≡ key
path_for-injective_example = path_for-injective key key key_file key_has_file key_has_file
