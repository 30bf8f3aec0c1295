-- ===== src/Driver/Declared.antt =====
-- windows/driver/Driver.c and Descriptor.c: the feature reports of the two callbacks have the lengths that
-- the report descriptor declares.
use touchpad.Base.{
  ℕ, ◌+◌, ◌%◌, ◌^◌, ◌≤◌, ◌<◌, ◌≡◌, ◌≢◌, if◌then◌else◌, refl, sym, ap, ◌∙◌, ◌⊎◌, inl, inr, arith,
  true, false, leb, ◌==◌, ◌&&◌, ◌||◌, some, List, ◌++◌, drop, get_or, length, Bool-cases,
}
use touchpad.Driver.Types.{
  DeviceContext, status_success, status_invalid_parameter, report_id_mode, report_id_function,
  report_id_caps, report_id_certification,
}
use touchpad.Driver.Features.{HidXferPacket, FeatureResult, get_feature, set_feature, store_feature}
use touchpad.Driver.Requests.{IsGiven, feature_bytes, get_feature-cases}
use touchpad.Driver.Descriptor.{report_descriptor, certification_blob}
use touchpad.Driver.Hid.{feature, parse_items, parse_descriptor, report_length}

abbrev pub declared_length : ℕ → ℕ
declared_length id = report_length report_descriptor feature id

caps_length : declared_length report_id_caps ≡ 3
unfolding report_length parse_descriptor parse_items
caps_length = refl

certification_length : declared_length report_id_certification ≡ 257
unfolding report_length parse_descriptor parse_items
certification_length = refl

mode_length : declared_length report_id_mode ≡ 2
unfolding report_length parse_descriptor parse_items
mode_length = refl

function_length : declared_length report_id_function ≡ 2
unfolding report_length parse_descriptor parse_items
function_length = refl

-- A packet whose buffer has the length that the packet says.
abbrev pub packet_of : List ℕ → ℕ → HidXferPacket
packet_of buffer report_id = record {
  report_buffer = some buffer;
  report_buffer_len = length buffer;
  report_id = report_id;
}

-- The answer to a feature report that the driver gives, by the declared length.
IsGiven-declared :
    (id n : ℕ)
    → (id ≡ report_id_caps) ⊎ (id ≡ report_id_certification)
    → (declared_length id ≤ n → IsGiven id n)
      × (n < declared_length id → IsGiven id n → ⊥)
      × (length (feature_bytes certification_blob id) ≡ declared_length id)
IsGiven-declared id n (inl caps) = rw caps (
  (λ h. inl (refl, omega (arith, h, caps_length))),
  (λ h g. elim g [ inl g' ↦ omega (arith, h, caps_length, g'.1) | inr g' ↦ omega (arith, g'.0) ]),
  sym caps_length,
)
IsGiven-declared id n (inr certified) = rw certified (
  (λ h. inr (refl, omega (arith, h, certification_length))),
  (λ h g. elim g [
    | inl g' ↦ omega (arith, g'.0)
    | inr g' ↦ omega (arith, h, certification_length, g'.1)
  ]),
  sym certification_length,
)

-- What a request for a feature report gets.
pub record Answered (buffer : List ℕ) (report_id : ℕ) (r : FeatureResult) : Type 0 where
  pub status : r.status ≡ status_success
  pub answer :
      r.buffer
      ≡ some (feature_bytes certification_blob report_id ++ drop (declared_length report_id) buffer)
  pub size : length (feature_bytes certification_blob report_id) ≡ declared_length report_id

pub record Rejected (buffer : List ℕ) (r : FeatureResult) : Type 0 where
  pub status : r.status ≡ status_invalid_parameter
  pub answer : r.buffer ≡ some buffer

-- The capability report and the certification report, with the driver's blob, into a buffer of any length:
-- exactly when the buffer holds the length that the report descriptor declares for the report the request
-- succeeds, it writes that many bytes, and the rest of the buffer stays; with a shorter buffer the answer is
-- STATUS_INVALID_PARAMETER and the buffer stays.
pub get_feature-declared :
    (buffer : List ℕ) (report_id : ℕ) (context : DeviceContext)
    → (report_id ≡ report_id_caps) ⊎ (report_id ≡ report_id_certification)
    → let r = get_feature certification_blob (some (packet_of buffer report_id)) context in
      (declared_length report_id ≤ length buffer → Answered buffer report_id r)
      × (length buffer < declared_length report_id → Rejected buffer r)
get_feature-declared buffer report_id context known =
    let (holds, short, size) = IsGiven-declared report_id (length buffer) known in
    elim (get_feature-cases certification_blob buffer report_id context refl).1 [
      | inl (given, status, answer, fits) ↦ (
        (λ h. record {
          status = status;
          answer =
              answer
              ∙ ap (λ (n : ℕ). some (feature_bytes certification_blob report_id ++ drop n buffer))
                  size;
          size = size;
        }),
        (λ h. absurd (short h given)),
      )
      | inr (refused, status, answer) ↦
          ((λ h. absurd (refused (holds h))), (λ h. record { status = status; answer = answer }))
    ]

-- What a stored feature leaves: its byte in its field, the other field as it was, one more in the counter.
pub record Stored (buffer : List ℕ) (report_id : ℕ) (context : DeviceContext) (r : FeatureResult)
    : Type 0 where
  pub status : r.status ≡ status_success
  pub answer : r.buffer ≡ some buffer
  pub input_mode :
      r.context.input_mode
      ≡ (if report_id == report_id_mode then get_or buffer 1 0 else context.input_mode)
  pub function_switch :
      r.context.function_switch
      ≡ (if report_id == report_id_mode then context.function_switch else get_or buffer 1 0)
  pub counter : r.context.set_feature_count ≡ (context.set_feature_count + 1) % 2 ^ 32
  pub frames : r.context.submit_count ≡ context.submit_count
  pub handle : r.context.vhf_handle ≡ context.vhf_handle

-- And a refused one.
pub record Unstored (buffer : List ℕ) (context : DeviceContext) (r : FeatureResult) : Type 0 where
  pub status : r.status ≡ status_invalid_parameter
  pub answer : r.buffer ≡ some buffer
  pub unchanged : r.context ≡ context

-- The reports that can be set have a length of two bytes.
settable :
    (id : ℕ)
    → (((id ≡ report_id_mode) ⊎ (id ≡ report_id_function))
        × (declared_length id ≡ 2)
        × ((id == report_id_mode || id == report_id_function) ≡ true))
      ⊎ (((id ≢ report_id_mode) × (id ≢ report_id_function))
          × ((id == report_id_mode || id == report_id_function) ≡ false))
settable id = elim (Bool-cases (id == report_id_mode)) [
  | inl mode ↦
      let is : id ≡ report_id_mode = ground (arith, mode) in
      inl (inl is, ap declared_length is ∙ mode_length, rw mode refl)
  | inr not_mode ↦ elim (Bool-cases (id == report_id_function)) [
    | inl switch ↦
        let is : id ≡ report_id_function = ground (arith, switch) in
        inl (inr is, ap declared_length is ∙ function_length, rw (not_mode, switch) refl)
    | inr neither ↦
        inr ((ground (arith, not_mode), ground (arith, neither)), rw (not_mode, neither) refl)
  ]
]

stored :
    (buffer : List ℕ) (report_id : ℕ) (context : DeviceContext)
    → (report_id ≡ report_id_mode) ⊎ (report_id ≡ report_id_function)
    → leb 2 (length buffer) ≡ true
    → Stored buffer report_id context (set_feature (some (packet_of buffer report_id)) context)
unfolding set_feature store_feature
stored buffer report_id context (inl mode) h = rw mode (
    rw h (record {
      status = refl;
      answer = refl;
      input_mode = refl;
      function_switch = refl;
      counter = refl;
      frames = refl;
      handle = refl;
    }))
stored buffer report_id context (inr switch) h = rw switch (
    rw h (record {
      status = refl;
      answer = refl;
      input_mode = refl;
      function_switch = refl;
      counter = refl;
      frames = refl;
      handle = refl;
    }))

unstored :
    (buffer : List ℕ) (report_id : ℕ) (context : DeviceContext)
    → (leb 2 (length buffer) && (report_id == report_id_mode || report_id == report_id_function))
      ≡ false
    → Unstored buffer context (set_feature (some (packet_of buffer report_id)) context)
unfolding set_feature store_feature
unstored buffer report_id context h =
    rw h (record { status = refl; answer = refl; unchanged = refl })

-- A feature that the host sets: the input mode and the function switch are stored exactly when the buffer has
-- the length that the report descriptor declares for them; any other report, and a shorter buffer, is
-- answered STATUS_INVALID_PARAMETER and changes nothing.
pub set_feature-declared :
    (buffer : List ℕ) (report_id : ℕ) (context : DeviceContext)
    → let r = set_feature (some (packet_of buffer report_id)) context in
      (((report_id ≡ report_id_mode) ⊎ (report_id ≡ report_id_function))
        × (declared_length report_id ≤ length buffer)
        × Stored buffer report_id context r)
      ⊎ ((((report_id ≢ report_id_mode) × (report_id ≢ report_id_function))
            ⊎ (length buffer < declared_length report_id))
          × Unstored buffer context r)
set_feature-declared buffer report_id context = elim (settable report_id) [
  | inl (known, two, is) ↦ elim (Bool-cases (leb 2 (length buffer))) [
    | inl long ↦ inl (known, ground (arith, long, two), stored buffer report_id context known long)
    | inr short ↦
        inr (inr (ground (arith, short, two)), unstored buffer report_id context (rw short refl))
  ]
  | inr (other, is) ↦ inr (inl other, unstored buffer report_id context (ground (arith, is)))
]
