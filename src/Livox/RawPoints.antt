-- ===== src/Livox/RawPoints.antt =====
-- The points of a packet as the packet handler reads them, comm/pub_handler.cpp and comm/comm.h. Both `float`
-- and `double` are elements of `F`: `add_f` and `mul_f` are the operations at single precision, `round` is
-- the conversion to it. How a packet's bytes hold points is the SDK's, and so are the codes of the data
-- types: both are fields of `Sdk`.
use sentry25navi.Prelude.{ℕ, ◌+◌, ◌*◌, ◌%◌, Bool, Option, List, if◌then◌else◌}
use sentry25navi.Prelude.Int.{ℤ}
use sentry25navi.Prelude.Word.{u64_mod}
use sentry25navi.Livox.Comm.{PointXyzlt}

pub record Floats (F : Type 0) : Type 0 where
  pub of_nat : ℕ → F
  pub of_int : ℤ → F
  pub truncate : F → ℕ
  pub round : F → F
  pub add_f : F → F → F
  pub mul_f : F → F → F
  pub add : F → F → F
  pub sub : F → F → F
  pub mul : F → F → F
  pub div : F → F → F
  pub neg : F → F
  pub sin : F → F
  pub cos : F → F
  pub pi : F

-- A point of `LivoxLidarCartesianHighRawPoint` or of the structure of low precision.
pub record CartesianPoint : Type 0 where
  pub x : ℤ
  pub y : ℤ
  pub z : ℤ
  pub reflectivity : ℕ
  pub tag : ℕ

pub record SpherPoint : Type 0 where
  pub depth : ℕ
  pub theta : ℕ
  pub phi : ℕ
  pub reflectivity : ℕ
  pub tag : ℕ

-- `raw[i]` of the bytes of a packet, by the type of its data.
pub record Sdk : Type 0 where
  pub high_data : ℕ
  pub low_data : ℕ
  pub spherical_data : ℕ
  pub high_at : List ℕ → ℕ → Option CartesianPoint
  pub low_at : List ℕ → ℕ → Option CartesianPoint
  pub spherical_at : List ℕ → ℕ → Option SpherPoint

pub record RawPacket : Type 0 where
  pub lidar_type : ℕ
  pub handle : ℕ
  pub extrinsic_enable : Bool
  pub point_num : ℕ
  pub data_type : ℕ
  pub line_num : ℕ
  pub time_stamp : ℕ
  pub point_interval : ℕ
  pub raw_data : List ℕ

pub record Vector (F : Type 0) : Type 0 where
  pub x : F
  pub y : F
  pub z : F

-- The rows of the rotation.
pub record ExtParameterDetailed (F : Type 0) : Type 0 where
  pub trans : Vector F
  pub row_0 : Vector F
  pub row_1 : Vector F
  pub row_2 : Vector F

module _ {F : Type 0} (f : Floats F) where
  open f use {of_nat, of_int, round, add_f, mul_f, add, sub, mul, div, neg, sin, cos, pi}

  -- The rotation of three angles, at double precision and rounded entry by entry.
  unfoldable pub rotation_rows : F → F → F → Vector F → ExtParameterDetailed F
  rotation_rows roll pitch yaw trans =
      let cr = cos roll in
      let cp = cos pitch in
      let cy = cos yaw in
      let sr = sin roll in
      let sp = sin pitch in
      let sy = sin yaw in
      record {
        trans = trans;
        row_0 = record {
          x = round (mul cp cy);
          y = round (sub (mul (mul sr sp) cy) (mul cr sy));
          z = round (add (mul (mul cr sp) cy) (mul sr sy));
        };
        row_1 = record {
          x = round (mul cp sy);
          y = round (add (mul (mul sr sp) sy) (mul cr cy));
          z = round (sub (mul (mul cr sp) sy) (mul sr cy));
        };
        row_2 = record { x = round (neg sp); y = round (mul sr cp); z = round (mul cr cp) };
      }

  -- The fields that every kind of point gets in the same way.
  abbrev pub stamped : RawPacket → ℕ → F → F → F → ℕ → ℕ → PointXyzlt F
  stamped pkt i x y z reflectivity tag = record {
    x = x;
    y = y;
    z = z;
    intensity = of_nat reflectivity;
    tag = tag;
    line = i % pkt.line_num;
    offset_time = (pkt.time_stamp + i * pkt.point_interval) % u64_mod;
  }

  -- One coordinate, from millimetres or centimetres.
  cartesian_coordinate : Vector F → F → CartesianPoint → ℕ → F
  cartesian_coordinate row t raw divisor = round (
      div
        (add_f
          (add_f (add_f (mul_f (of_int raw.x) row.x) (mul_f (of_int raw.y) row.y))
            (mul_f (of_int raw.z) row.z))
          t)
        (of_nat divisor))

  unfoldable pub cartesian_point :
      ExtParameterDetailed F → RawPacket → ℕ → ℕ → CartesianPoint → PointXyzlt F
  unfolding cartesian_coordinate
  cartesian_point e pkt divisor i raw =
      if pkt.extrinsic_enable
      then stamped pkt i (round (div (of_int raw.x) (of_nat divisor)))
          (round (div (of_int raw.y) (of_nat divisor)))
          (round (div (of_int raw.z) (of_nat divisor))) raw.reflectivity raw.tag
      else stamped pkt i (cartesian_coordinate e.row_0 e.trans.x raw divisor)
          (cartesian_coordinate e.row_1 e.trans.y raw divisor)
          (cartesian_coordinate e.row_2 e.trans.z raw divisor) raw.reflectivity raw.tag

  spherical_coordinate : Vector F → F → Vector F → F
  spherical_coordinate row t src =
      round (
        add (add (add (mul src.x row.x) (mul src.y row.y)) (mul src.z row.z)) (div t (of_nat 1000)))

  unfoldable pub spherical_point :
      ExtParameterDetailed F → RawPacket → ℕ → SpherPoint → PointXyzlt F
  unfolding spherical_coordinate
  spherical_point e pkt i raw =
      let radius = div (of_nat raw.depth) (of_nat 1000) in
      let theta = mul (div (div (of_nat raw.theta) (of_nat 100)) (of_nat 180)) pi in
      let phi = mul (div (div (of_nat raw.phi) (of_nat 100)) (of_nat 180)) pi in
      let src : Vector F = record {
        x = mul (mul radius (sin theta)) (cos phi);
        y = mul (mul radius (sin theta)) (sin phi);
        z = mul radius (cos theta);
      } in
      if pkt.extrinsic_enable
      then stamped pkt i (round src.x) (round src.y) (round src.z) raw.reflectivity raw.tag
      else stamped pkt i (spherical_coordinate e.row_0 e.trans.x src)
          (spherical_coordinate e.row_1 e.trans.y src) (spherical_coordinate e.row_2 e.trans.z src)
          raw.reflectivity raw.tag
