-- ===== src/Calls/Send/Gles3.antt =====
-- stub/gles3_2_stub.c: how the calls of OpenGL ES 3 are sent.
use webos_bridge_64to.Common.{ℕ, [], ◌∷◌}
use webos_bridge_64to.Calls.Args.{Command, u32, i32, f32}
use webos_bridge_64to.Calls.Opcodes.{
  op_gl_begin_query, op_gl_end_query, op_gl_bind_sampler, op_gl_draw_arrays_instanced,
  op_gl_copy_tex_sub_image_3d, op_gl_vertex_attrib_i4i, op_gl_vertex_attrib_i4ui,
  op_gl_end_transform_feedback, op_gl_uniform1ui, op_gl_uniform2ui, op_gl_uniform3ui,
  op_gl_uniform4ui, op_gl_tex_storage_3d, op_gl_color_maski, op_gl_enablei, op_gl_disablei,
  op_gl_bind_buffer_base, op_gl_sampler_parameteri, op_gl_sampler_parameterf,
  op_gl_begin_transform_feedback, op_gl_uniform_block_binding,
  op_gl_renderbuffer_storage_multisample, op_gl_blit_framebuffer, op_gl_bind_transform_feedback,
  op_gl_pause_transform_feedback, op_gl_resume_transform_feedback, op_gl_bind_image_texture,
  op_gl_pop_debug_group, op_gl_read_buffer, op_gl_clear_bufferfi, op_gl_tex_buffer,
  op_gl_program_parameteri, op_gl_tex_storage_3d_multisample, op_gl_min_sample_shading,
  op_gl_copy_image_sub_data, op_gl_memory_barrier, op_gl_dispatch_compute,
  op_gl_tex_storage_2d_multisample, op_gl_primitive_bounding_box, op_gl_use_program_stages,
  op_gl_bind_program_pipeline, op_gl_active_shader_program, op_gl_validate_program_pipeline,
  op_gl_memory_barrier_by_region, op_gl_blend_barrier, op_gl_patch_parameteri,
}

unfoldable pub send_gl_begin_query : ℕ → ℕ → Command
send_gl_begin_query target id = record {
  opcode = op_gl_begin_query;
  args = (u32, target) ∷ (u32, id) ∷ [];
}

unfoldable pub send_gl_end_query : ℕ → Command
send_gl_end_query target = record { opcode = op_gl_end_query; args = (u32, target) ∷ [] }

unfoldable pub send_gl_bind_sampler : ℕ → ℕ → Command
send_gl_bind_sampler unit sampler = record {
  opcode = op_gl_bind_sampler;
  args = (u32, unit) ∷ (u32, sampler) ∷ [];
}

unfoldable pub send_gl_draw_arrays_instanced : ℕ → ℕ → ℕ → ℕ → Command
send_gl_draw_arrays_instanced mode first count instancecount = record {
  opcode = op_gl_draw_arrays_instanced;
  args = (u32, mode) ∷ (i32, first) ∷ (i32, count) ∷ (i32, instancecount) ∷ [];
}

unfoldable pub send_gl_copy_tex_sub_image_3d : ℕ → ℕ → ℕ → ℕ → ℕ → ℕ → ℕ → ℕ → ℕ → Command
send_gl_copy_tex_sub_image_3d target level_arg xoffset yoffset zoffset x y width height = record {
  opcode = op_gl_copy_tex_sub_image_3d;
  args =
      (u32, target)
      ∷ (i32, level_arg)
      ∷ (i32, xoffset)
      ∷ (i32, yoffset)
      ∷ (i32, zoffset)
      ∷ (i32, x)
      ∷ (i32, y)
      ∷ (i32, width)
      ∷ (i32, height)
      ∷ [];
}

unfoldable pub send_gl_vertex_attrib_i4i : ℕ → ℕ → ℕ → ℕ → ℕ → Command
send_gl_vertex_attrib_i4i index x y z w = record {
  opcode = op_gl_vertex_attrib_i4i;
  args = (u32, index) ∷ (i32, x) ∷ (i32, y) ∷ (i32, z) ∷ (i32, w) ∷ [];
}

unfoldable pub send_gl_vertex_attrib_i4ui : ℕ → ℕ → ℕ → ℕ → ℕ → Command
send_gl_vertex_attrib_i4ui index x y z w = record {
  opcode = op_gl_vertex_attrib_i4ui;
  args = (u32, index) ∷ (u32, x) ∷ (u32, y) ∷ (u32, z) ∷ (u32, w) ∷ [];
}

unfoldable pub send_gl_end_transform_feedback : Command
send_gl_end_transform_feedback = record { opcode = op_gl_end_transform_feedback; args = [] }

unfoldable pub send_gl_uniform1ui : ℕ → ℕ → Command
send_gl_uniform1ui location v0 = record {
  opcode = op_gl_uniform1ui;
  args = (i32, location) ∷ (u32, v0) ∷ [];
}

unfoldable pub send_gl_uniform2ui : ℕ → ℕ → ℕ → Command
send_gl_uniform2ui location v0 v1 = record {
  opcode = op_gl_uniform2ui;
  args = (i32, location) ∷ (u32, v0) ∷ (u32, v1) ∷ [];
}

unfoldable pub send_gl_uniform3ui : ℕ → ℕ → ℕ → ℕ → Command
send_gl_uniform3ui location v0 v1 v2 = record {
  opcode = op_gl_uniform3ui;
  args = (i32, location) ∷ (u32, v0) ∷ (u32, v1) ∷ (u32, v2) ∷ [];
}

unfoldable pub send_gl_uniform4ui : ℕ → ℕ → ℕ → ℕ → ℕ → Command
send_gl_uniform4ui location v0 v1 v2 v3 = record {
  opcode = op_gl_uniform4ui;
  args = (i32, location) ∷ (u32, v0) ∷ (u32, v1) ∷ (u32, v2) ∷ (u32, v3) ∷ [];
}

unfoldable pub send_gl_tex_storage_3d : ℕ → ℕ → ℕ → ℕ → ℕ → ℕ → Command
send_gl_tex_storage_3d target levels internalformat width height depth = record {
  opcode = op_gl_tex_storage_3d;
  args =
      (u32, target)
      ∷ (i32, levels)
      ∷ (u32, internalformat)
      ∷ (i32, width)
      ∷ (i32, height)
      ∷ (i32, depth)
      ∷ [];
}

unfoldable pub send_gl_color_maski : ℕ → ℕ → ℕ → ℕ → ℕ → Command
send_gl_color_maski index r g b a = record {
  opcode = op_gl_color_maski;
  args = (u32, index) ∷ (u32, r) ∷ (u32, g) ∷ (u32, b) ∷ (u32, a) ∷ [];
}

unfoldable pub send_gl_enablei : ℕ → ℕ → Command
send_gl_enablei cap index = record { opcode = op_gl_enablei; args = (u32, cap) ∷ (u32, index) ∷ [] }

unfoldable pub send_gl_disablei : ℕ → ℕ → Command
send_gl_disablei cap index = record {
  opcode = op_gl_disablei;
  args = (u32, cap) ∷ (u32, index) ∷ [];
}

unfoldable pub send_gl_bind_buffer_base : ℕ → ℕ → ℕ → Command
send_gl_bind_buffer_base target index buffer = record {
  opcode = op_gl_bind_buffer_base;
  args = (u32, target) ∷ (u32, index) ∷ (u32, buffer) ∷ [];
}

unfoldable pub send_gl_sampler_parameteri : ℕ → ℕ → ℕ → Command
send_gl_sampler_parameteri sampler pname param = record {
  opcode = op_gl_sampler_parameteri;
  args = (u32, sampler) ∷ (u32, pname) ∷ (i32, param) ∷ [];
}

unfoldable pub send_gl_sampler_parameterf : ℕ → ℕ → ℕ → Command
send_gl_sampler_parameterf sampler pname param = record {
  opcode = op_gl_sampler_parameterf;
  args = (u32, sampler) ∷ (u32, pname) ∷ (f32, param) ∷ [];
}

unfoldable pub send_gl_begin_transform_feedback : ℕ → Command
send_gl_begin_transform_feedback primitive_mode = record {
  opcode = op_gl_begin_transform_feedback;
  args = (u32, primitive_mode) ∷ [];
}

unfoldable pub send_gl_uniform_block_binding : ℕ → ℕ → ℕ → Command
send_gl_uniform_block_binding program uniform_block_index uniform_block_binding = record {
  opcode = op_gl_uniform_block_binding;
  args = (u32, program) ∷ (u32, uniform_block_index) ∷ (u32, uniform_block_binding) ∷ [];
}

unfoldable pub send_gl_renderbuffer_storage_multisample : ℕ → ℕ → ℕ → ℕ → ℕ → Command
send_gl_renderbuffer_storage_multisample target samples internalformat width height = record {
  opcode = op_gl_renderbuffer_storage_multisample;
  args = (u32, target) ∷ (i32, samples) ∷ (u32, internalformat) ∷ (i32, width) ∷ (i32, height) ∷ [];
}

unfoldable pub send_gl_blit_framebuffer : ℕ → ℕ → ℕ → ℕ → ℕ → ℕ → ℕ → ℕ → ℕ → ℕ → Command
send_gl_blit_framebuffer src_x0 src_y0 src_x1 src_y1 dst_x0 dst_y0 dst_x1 dst_y1 mask filter =
    record {
      opcode = op_gl_blit_framebuffer;
      args =
          (i32, src_x0)
          ∷ (i32, src_y0)
          ∷ (i32, src_x1)
          ∷ (i32, src_y1)
          ∷ (i32, dst_x0)
          ∷ (i32, dst_y0)
          ∷ (i32, dst_x1)
          ∷ (i32, dst_y1)
          ∷ (u32, mask)
          ∷ (u32, filter)
          ∷ [];
    }

unfoldable pub send_gl_bind_transform_feedback : ℕ → ℕ → Command
send_gl_bind_transform_feedback target id = record {
  opcode = op_gl_bind_transform_feedback;
  args = (u32, target) ∷ (u32, id) ∷ [];
}

unfoldable pub send_gl_pause_transform_feedback : Command
send_gl_pause_transform_feedback = record { opcode = op_gl_pause_transform_feedback; args = [] }

unfoldable pub send_gl_resume_transform_feedback : Command
send_gl_resume_transform_feedback = record { opcode = op_gl_resume_transform_feedback; args = [] }

unfoldable pub send_gl_bind_image_texture : ℕ → ℕ → ℕ → ℕ → ℕ → ℕ → ℕ → Command
send_gl_bind_image_texture unit texture level_arg layered layer access format = record {
  opcode = op_gl_bind_image_texture;
  args =
      (u32, unit)
      ∷ (u32, texture)
      ∷ (i32, level_arg)
      ∷ (u32, layered)
      ∷ (i32, layer)
      ∷ (u32, access)
      ∷ (u32, format)
      ∷ [];
}

unfoldable pub send_gl_pop_debug_group : Command
send_gl_pop_debug_group = record { opcode = op_gl_pop_debug_group; args = [] }

unfoldable pub send_gl_read_buffer : ℕ → Command
send_gl_read_buffer src = record { opcode = op_gl_read_buffer; args = (u32, src) ∷ [] }

unfoldable pub send_gl_clear_bufferfi : ℕ → ℕ → ℕ → ℕ → Command
send_gl_clear_bufferfi buffer drawbuffer depth stencil = record {
  opcode = op_gl_clear_bufferfi;
  args = (u32, buffer) ∷ (i32, drawbuffer) ∷ (f32, depth) ∷ (i32, stencil) ∷ [];
}

unfoldable pub send_gl_tex_buffer : ℕ → ℕ → ℕ → Command
send_gl_tex_buffer target internalformat buffer = record {
  opcode = op_gl_tex_buffer;
  args = (u32, target) ∷ (u32, internalformat) ∷ (u32, buffer) ∷ [];
}

unfoldable pub send_gl_program_parameteri : ℕ → ℕ → ℕ → Command
send_gl_program_parameteri program pname value = record {
  opcode = op_gl_program_parameteri;
  args = (u32, program) ∷ (u32, pname) ∷ (i32, value) ∷ [];
}

unfoldable pub send_gl_tex_storage_3d_multisample : ℕ → ℕ → ℕ → ℕ → ℕ → ℕ → ℕ → Command
send_gl_tex_storage_3d_multisample target samples internalformat width height depth
      fixedsamplelocations =
    record {
      opcode = op_gl_tex_storage_3d_multisample;
      args =
          (u32, target)
          ∷ (i32, samples)
          ∷ (u32, internalformat)
          ∷ (i32, width)
          ∷ (i32, height)
          ∷ (i32, depth)
          ∷ (u32, fixedsamplelocations)
          ∷ [];
    }

unfoldable pub send_gl_min_sample_shading : ℕ → Command
send_gl_min_sample_shading value = record {
  opcode = op_gl_min_sample_shading;
  args = (f32, value) ∷ [];
}

unfoldable pub send_gl_copy_image_sub_data :
    ℕ → ℕ → ℕ → ℕ → ℕ → ℕ → ℕ → ℕ → ℕ → ℕ → ℕ → ℕ → ℕ → ℕ → ℕ → Command
send_gl_copy_image_sub_data src_name src_target src_level src_x src_y src_z dst_name dst_target
      dst_level dst_x dst_y dst_z src_width src_height src_depth =
    record {
      opcode = op_gl_copy_image_sub_data;
      args =
          (u32, src_name)
          ∷ (u32, src_target)
          ∷ (i32, src_level)
          ∷ (i32, src_x)
          ∷ (i32, src_y)
          ∷ (i32, src_z)
          ∷ (u32, dst_name)
          ∷ (u32, dst_target)
          ∷ (i32, dst_level)
          ∷ (i32, dst_x)
          ∷ (i32, dst_y)
          ∷ (i32, dst_z)
          ∷ (i32, src_width)
          ∷ (i32, src_height)
          ∷ (i32, src_depth)
          ∷ [];
    }

unfoldable pub send_gl_memory_barrier : ℕ → Command
send_gl_memory_barrier barriers = record {
  opcode = op_gl_memory_barrier;
  args = (u32, barriers) ∷ [];
}

unfoldable pub send_gl_dispatch_compute : ℕ → ℕ → ℕ → Command
send_gl_dispatch_compute num_groups_x num_groups_y num_groups_z = record {
  opcode = op_gl_dispatch_compute;
  args = (u32, num_groups_x) ∷ (u32, num_groups_y) ∷ (u32, num_groups_z) ∷ [];
}

unfoldable pub send_gl_tex_storage_2d_multisample : ℕ → ℕ → ℕ → ℕ → ℕ → ℕ → Command
send_gl_tex_storage_2d_multisample target samples internalformat width height fixedsamplelocations =
    record {
      opcode = op_gl_tex_storage_2d_multisample;
      args =
          (u32, target)
          ∷ (i32, samples)
          ∷ (u32, internalformat)
          ∷ (i32, width)
          ∷ (i32, height)
          ∷ (u32, fixedsamplelocations)
          ∷ [];
    }

unfoldable pub send_gl_primitive_bounding_box : ℕ → ℕ → ℕ → ℕ → ℕ → ℕ → ℕ → ℕ → Command
send_gl_primitive_bounding_box min_x min_y min_z min_w max_x max_y max_z max_w = record {
  opcode = op_gl_primitive_bounding_box;
  args =
      (f32, min_x)
      ∷ (f32, min_y)
      ∷ (f32, min_z)
      ∷ (f32, min_w)
      ∷ (f32, max_x)
      ∷ (f32, max_y)
      ∷ (f32, max_z)
      ∷ (f32, max_w)
      ∷ [];
}

unfoldable pub send_gl_use_program_stages : ℕ → ℕ → ℕ → Command
send_gl_use_program_stages pipeline stages program = record {
  opcode = op_gl_use_program_stages;
  args = (u32, pipeline) ∷ (u32, stages) ∷ (u32, program) ∷ [];
}

unfoldable pub send_gl_bind_program_pipeline : ℕ → Command
send_gl_bind_program_pipeline pipeline = record {
  opcode = op_gl_bind_program_pipeline;
  args = (u32, pipeline) ∷ [];
}

unfoldable pub send_gl_active_shader_program : ℕ → ℕ → Command
send_gl_active_shader_program pipeline program = record {
  opcode = op_gl_active_shader_program;
  args = (u32, pipeline) ∷ (u32, program) ∷ [];
}

unfoldable pub send_gl_validate_program_pipeline : ℕ → Command
send_gl_validate_program_pipeline pipeline = record {
  opcode = op_gl_validate_program_pipeline;
  args = (u32, pipeline) ∷ [];
}

unfoldable pub send_gl_memory_barrier_by_region : ℕ → Command
send_gl_memory_barrier_by_region barriers = record {
  opcode = op_gl_memory_barrier_by_region;
  args = (u32, barriers) ∷ [];
}

unfoldable pub send_gl_blend_barrier : Command
send_gl_blend_barrier = record { opcode = op_gl_blend_barrier; args = [] }

unfoldable pub send_gl_patch_parameteri : ℕ → ℕ → Command
send_gl_patch_parameteri pname value = record {
  opcode = op_gl_patch_parameteri;
  args = (u32, pname) ∷ (i32, value) ∷ [];
}
