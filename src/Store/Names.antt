-- ===== src/Store/Names.antt =====
-- The entries of `N` in web/nasa_web/static/js/store.js.
use nasa_cpp.Base.{String}

abbrev pub outdoor : String
outdoor = "Temp Outer"

abbrev pub water_out : String
water_out = "Temp Water Out"

abbrev pub water_in : String
water_in = "Temp Water In"

abbrev pub law_target : String
law_target = "Temp Water Law Target"

abbrev pub tank : String
tank = "Temp DHW Tank"

abbrev pub outlet1 : String
outlet1 = "Temp Outlet Zone1"

abbrev pub outlet2 : String
outlet2 = "Temp Outlet Zone2"

abbrev pub flow : String
flow = "Flow Sensor"

abbrev pub power : String
power = "System Power"

abbrev pub freq : String
freq = "Current Frequency 1"

abbrev pub fan : String
fan = "Outdoor Fan1 RPM"

abbrev pub pwm : String
pwm = "PWM"

abbrev pub valve : String
valve = "3 Way Valve"

abbrev pub op_mode : String
op_mode = "Operating Mode"

abbrev pub defrost : String
defrost = "Defrost Step"

abbrev pub backup : String
backup = "Backup Heater Mode"

abbrev pub booster : String
booster = "Booster Heater Mode"

abbrev pub error : String
error = "Error Code"

abbrev pub energy_in : String
energy_in = "Total Input Energy"

abbrev pub energy_out : String
energy_out = "Total Output Energy"

abbrev pub minutes_active : String
minutes_active = "Minutes Active"

abbrev pub dhw : String
dhw = "DHW"

abbrev pub dhw_mode : String
dhw_mode = "DHW Mode"

abbrev pub dhw_target : String
dhw_target = "Temp DHW Target"

abbrev pub mode : String
mode = "Mode"

abbrev pub zone1 : String
zone1 = "Zone1"

abbrev pub zone1_target : String
zone1_target = "Zone 1 Target"

abbrev pub zone2 : String
zone2 = "Zone2"

abbrev pub zone2_target : String
zone2_target = "Zone 2 Target"

abbrev pub outlet1_target : String
outlet1_target = "Zone 1 Water Outlet Target"

abbrev pub outlet2_target : String
outlet2_target = "Zone 2 Water Outlet Target"

abbrev pub law_offset : String
law_offset = "Temp Water Law Target F"
